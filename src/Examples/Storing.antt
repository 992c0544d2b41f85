-- ===== src/Examples/Storing.antt =====
-- A small log and a small keyring.
use sshvault.Prelude.{
  ℕ, suc, zero, ◌≡◌, ◌≤◌, refl, some, none, Option, true, List, [], ◌∷◌, ◌++◌, arith, take, ltb,
  if◌then◌else◌,
}
use sshvault.Prelude.Order.{Text}
use sshvault.Record.{Record, Uuid, Kind, Clock}
use sshvault.Vault.Fail.{done, fail, corrupt, ◌>>=◌}
use sshvault.Vault.Frames.{RawEntry, frame_of, parse_frames, log_of}
use sshvault.Vault.Frames.Reading.{parse_frames-log_of}
use sshvault.Vault.Frames.Canonical.{parse_frames-canonical, parse_frames-append}
use sshvault.Vault.Frames.Reading.{IsFrame}
use sshvault.Vault.Frames.Cuts.{IsByte}
use sshvault.Vault.Frames.Torn.{parse_frames-torn}
use sshvault.Vault.Keyring.{
  Keyring, ShareKeys, share, split_key_list, share_key_list, push_share_key, current_for,
  absorb_share_key, normalize, open_entry,
}
use sshvault.Vault.Keyring.Lists.{split_key_list-share_key_list}
use sshvault.Vault.Keyring.Growth.{key_count, push_share_key_lem, absorb_share_key-grows}
use sshvault.Vault.Keyring.Opening.{open_entry-push_share_key}
use sshvault.Vault.Store.{Vault, Disk, Meta, Codec, compact, fold_from_snapshot}
use sshvault.Vault.Store.Clocks.{Event, Increasing, clocks, clocks-Increasing}
use sshvault.Vault.Store.Snapshots.{compact-replays}
use sshvault.Prelude.{All, ◌≢◌}

abbrev bytes : ℕ → ℕ → Text
bytes zero b = []
bytes (suc n) b = b ∷ bytes n b

abbrev entry : ℕ → RawEntry
entry n = (bytes 16 n, n ∷ [])

abbrev log : Text
log = 17 ∷ 0 ∷ 0 ∷ 0 ∷ 3 ∷ 3 ∷ 3 ∷ 3 ∷ 3 ∷ 3 ∷ 3 ∷ 3 ∷ 3 ∷ 3 ∷ 3 ∷ 3 ∷ 3 ∷ 3 ∷ 3 ∷ 3 ∷ 3 ∷ []

is_frame : (n : ℕ) → IsFrame (entry n)
is_frame n = (refl, omega arith)

log_bytes : All IsByte log
log_bytes = omega arith

log_parses : parse_frames log ≡ done (entry 3 ∷ [])
unfolding parse_frames sshvault.Vault.Frames.parse_from sshvault.Vault.Frames.from_le_bytes
log_parses = refl

parse_frames-log_of_example :
    parse_frames (log_of (entry 3 ∷ entry 4 ∷ [])) ≡ done (entry 3 ∷ entry 4 ∷ [])
parse_frames-log_of_example =
    parse_frames-log_of (entry 3 ∷ entry 4 ∷ []) (is_frame 3, (is_frame 4, tt))

parse_frames-canonical_example : (log_of (entry 3 ∷ []) ≡ log) × All IsFrame (entry 3 ∷ [])
parse_frames-canonical_example = parse_frames-canonical log (entry 3 ∷ []) log_bytes log_parses

parse_frames-append_example :
    parse_frames (log ++ frame_of (entry 4)) ≡ done ((entry 3 ∷ []) ++ (entry 4 ∷ []))
parse_frames-append_example =
    parse_frames-append log (entry 3 ∷ []) (entry 4) log_bytes log_parses (is_frame 4)

parse_frames-torn_example :
    parse_frames (log_of (entry 3 ∷ []) ++ take 9 (frame_of (entry 4))) ≡ fail corrupt
parse_frames-torn_example =
    parse_frames-torn (entry 3 ∷ []) (entry 4) 9 (is_frame 3, tt) (is_frame 4) (omega arith)
      (omega arith)

abbrev two_epochs : ShareKeys
two_epochs = record { id = 0; keys = bytes 32 1 ∷ bytes 32 2 ∷ [] }

abbrev ring : Keyring
ring = record {
  shares = two_epochs ∷ [];
  vault_keys = [];
  vault_key = none;
  x25519_secret = [];
  ed25519_secret = [];
}

ring_share : share ring 0 ≡ some two_epochs
unfolding share sshvault.Vault.Keyring.find_share
ring_share = refl

split_key_list-share_key_list_example :
    split_key_list (share_key_list ring 0) ≡ done (bytes 32 1 ∷ bytes 32 2 ∷ [])
split_key_list-share_key_list_example =
    split_key_list-share_key_list ring 0 two_epochs ring_share (refl, (refl, tt)) (omega arith)

push_share_key_lem_example :
    (current_for (push_share_key 0 (bytes 32 3) ring) 0 ≡ some (bytes 32 3))
    × (key_count (push_share_key 0 (bytes 32 3) ring) 0 ≡ suc (key_count ring 0))
    × ((j : Uuid) → j ≢ 0 → share (push_share_key 0 (bytes 32 3) ring) j ≡ share ring j)
push_share_key_lem_example = push_share_key_lem 0 (bytes 32 3) ring

late_list : absorb_share_key 0 (bytes 32 1) ring ≡ done ring
unfolding absorb_share_key
late_list = refl

absorb_share_key-grows_example : key_count ring 0 ≤ key_count ring 0
absorb_share_key-grows_example = absorb_share_key-grows 0 (bytes 32 1) ring ring 0 late_list

-- A record is spelt by its id, and nothing is hidden.
abbrev note : ℕ → Record
note n = record {
  id = n;
  kind = Kind.host;
  fields = [];
  deleted_at = none;
  clock = record { lamport = 1; device = 1 };
  device_id = 1;
  modified_at = 0;
  share_id = 0;
}

abbrev parse_note : Text → Option Record
parse_note [] = none
parse_note (n ∷ _) = some (note n)

abbrev opens : Text → Text → Text → Option Text
opens [] blob aad = none
opens (k ∷ _) blob aad = if ltb k 9 then some blob else none

abbrev plain_codec : Codec
plain_codec = record {
  seal = λ k p a n. p;
  decrypt = opens;
  to_vec = λ r. r.id ∷ [];
  from_slice = parse_note;
}

open_entry-push_share_key_example :
    open_entry opens parse_note (bytes 16 3) (3 ∷ []) (push_share_key 0 (bytes 32 9) ring)
    ≡ open_entry opens parse_note (bytes 16 3) (3 ∷ []) ring
open_entry-push_share_key_example =
    open_entry-push_share_key opens parse_note (bytes 16 3) (3 ∷ []) 0 (bytes 32 9) ring refl

abbrev meta : Meta
meta = record {
  vault_id = 1;
  device_id = 2;
  device_name = [];
  kdf = record { salt_b64 = []; m_kib = 65536; t = 3; p = 1 };
  x25519_pub_b64 = [];
  ed25519_pub_b64 = [];
  recovery_pub_b64 = [];
  lamport = 4;
  relay_url = none;
  sync_cursor = 0;
}

abbrev handle : Vault
handle = record { meta = meta; keyring = ring; state = [] }

-- Two writes of one record.
abbrev disk : Disk
disk = record { meta = some meta; log = log ++ log; snapshot = none }

abbrev compacted : Disk
compacted = record disk {
  snapshot = some (record { covered = 2; shares = (0, 2) ∷ []; records = note 3 ∷ [] });
}

disk_parses : parse_frames disk.log ≡ done (entry 3 ∷ entry 3 ∷ [])
unfolding parse_frames sshvault.Vault.Frames.parse_from sshvault.Vault.Frames.from_le_bytes
disk_parses = refl

disk_compacts :
    compact plain_codec handle disk
    ≡ done (true, record handle { state = (3, note 3) ∷ [] }, compacted)
unfolding compact sshvault.Vault.Frames.parse_from sshvault.Vault.Frames.from_le_bytes
    sshvault.Merge.absorb sshvault.OrdMap.get sshvault.OrdMap.insert sshvault.Merge.merge
    sshvault.Record.max_kind sshvault.Merge.merge_fields sshvault.Record.max_clock
disk_compacts = refl

compact-replays_example :
    fold_from_snapshot plain_codec ring
      ((entry 3 ∷ entry 3 ∷ []) ++ (entry 4 ∷ []))
      compacted.snapshot
    ≡ (fold_from_snapshot plain_codec ring ((entry 3 ∷ entry 3 ∷ []) ++ (entry 4 ∷ [])) none
        >>= λ r. done (r.0, 2))
compact-replays_example =
    compact-replays plain_codec handle (record handle { state = (3, note 3) ∷ [] }) disk compacted
      (entry 3 ∷ entry 3 ∷ []) (entry 4 ∷ []) disk_parses disk_compacts

-- Two stale handles take a clock in turn, and an entry arrives between them.
abbrev events : List (Vault × Event)
events = (handle, Event.tick) ∷ (handle, Event.receive (entry 3)) ∷ (handle, Event.tick) ∷ []

entry_fits :
    (r : Record)
    → open_entry opens parse_note (bytes 16 3) (3 ∷ []) ring ≡ done (some r)
    → r.clock.lamport ≤ 5
unfolding open_entry sshvault.Vault.Keyring.open_shares sshvault.Vault.Keyring.open_keys
entry_fits r e = ground arith

clocks-Increasing_example : Increasing 4 (clocks plain_codec events disk)
clocks-Increasing_example = clocks-Increasing plain_codec 4 events disk meta refl (omega arith) (
  omega arith,
  omega arith,
  (omega arith, (omega arith, entry_fits), (omega arith, omega arith, tt)),
)
