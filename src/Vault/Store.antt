-- ===== src/Vault/Store.antt =====
-- `Vault` in src/vault.rs: the handle that a process holds, and the files that it shares with the
-- other processes. Reading and writing a file is taken not to fail.
pub mod Snapshots
pub mod Clocks
use sshvault.Prelude.{
  ℕ, ◌+◌, ◌-◌, ◌%◌, Bool, true, false, ◌&&◌, Option, none, some, List, [], ◌∷◌, ◌++◌, map, length,
  drop, max, leb, ltb, ◌==◌, if◌then◌else◌,
}
use sshvault.Prelude.Order.{Text, nat_ord}
use sshvault.OrdMap.{from_entries, values}
use sshvault.Record.{Uuid, Clock, Record}
use sshvault.Merge.{State, absorb, merge_all}
use sshvault.Vault.Fail.{Result, done, fail, corrupt, ◌>>=◌}
use sshvault.Vault.Frames.{RawEntry, frame_of, parse_frames}
use sshvault.Vault.Keyring.{Keyring, current_for, held_share_epochs, open_entry}

pub record KdfParams : Type 0 where
  pub salt_b64 : Text
  pub m_kib : ℕ
  pub t : ℕ
  pub p : ℕ

pub record Meta : Type 0 where
  pub vault_id : Uuid
  pub device_id : Uuid
  pub device_name : Text
  pub kdf : KdfParams
  pub x25519_pub_b64 : Text
  pub ed25519_pub_b64 : Text
  pub recovery_pub_b64 : Text
  pub lamport : ℕ
  pub relay_url : Option Text
  pub sync_cursor : ℕ

pub record Snapshot : Type 0 where
  pub covered : ℕ
  pub shares : List (Uuid × ℕ)
  pub records : List Record

-- The key that seals the files, and the folder, are left out.
pub record Vault : Type 0 where
  pub meta : Meta
  pub keyring : Keyring
  pub state : State

-- meta.json if it parses, the bytes of log.bin, and the snapshot if there is one that opens.
pub record Disk : Type 0 where
  pub meta : Option Meta
  pub log : Text
  pub snapshot : Option Snapshot

-- AEAD and MessagePack, which are packages: `seal` takes the random nonce last.
pub record Codec : Type 0 where
  pub seal : Text → Text → Text → Text → Text
  pub decrypt : Text → Text → Text → Option Text
  pub to_vec : Record → Text
  pub from_slice : Text → Option Record

unfoldable pub absorb_disk_meta : Vault → Disk → Vault
absorb_disk_meta v d = elim d.meta [
  | none ↦ v
  | some disk ↦ record v {
    meta = record v.meta {
      lamport = max v.meta.lamport disk.lamport;
      sync_cursor = max v.meta.sync_cursor disk.sync_cursor;
    };
  }
]

abbrev with_meta : Vault → Meta → Vault
with_meta v m = record v { meta = m }

unfoldable pub write_meta : Vault → Disk → Vault × Disk
write_meta v d = (v, record d { meta = some v.meta })

-- The clock is written before it is used.
unfoldable pub next_clock : Vault → Disk → Clock × Vault × Disk
unfolding absorb_disk_meta write_meta
next_clock v d =
    let v' = absorb_disk_meta v d in
    let tick = record v'.meta { lamport = (v'.meta.lamport + 1) % 18446744073709551616 } in
    let (v'', d') = write_meta (with_meta v' tick) d in
    (record { lamport = tick.lamport; device = tick.device_id }, v'', d')

unfoldable pub set_relay_url : Text → Vault → Disk → Vault × Disk
unfolding absorb_disk_meta write_meta
set_relay_url url v d =
    let v' = absorb_disk_meta v d in
    write_meta (with_meta v' (record v'.meta { relay_url = some url })) d

-- The cursor only advances.
unfoldable pub set_sync_cursor : ℕ → Vault → Disk → Vault × Disk
unfolding absorb_disk_meta write_meta
set_sync_cursor cursor v d =
    let v' = absorb_disk_meta v d in
    write_meta (with_meta v' (record v'.meta { sync_cursor = max v'.meta.sync_cursor cursor })) d

unfoldable pub reset_sync_cursor : Vault → Disk → Vault × Disk
unfolding absorb_disk_meta write_meta
reset_sync_cursor v d =
    let v' = absorb_disk_meta v d in
    write_meta (with_meta v' (record v'.meta { sync_cursor = 0 })) d

unfoldable pub write_frame : RawEntry → Disk → Disk
unfolding frame_of
write_frame e d = record d { log = d.log ++ frame_of e }

-- `a.contains(b)` on pairs
contains : List (Uuid × ℕ) → Uuid × ℕ → Bool
contains [] p = false
contains ((i, n) ∷ ps) (j, m) = if i == j && n == m then true else contains ps (j, m)

all_in : List (Uuid × ℕ) → List (Uuid × ℕ) → Bool
unfolding contains
all_in [] ps = true
all_in (q ∷ qs) ps = contains ps q && all_in qs ps

unfoldable pub same_epoch_set : List (Uuid × ℕ) → List (Uuid × ℕ) → Bool
unfolding all_in contains
same_epoch_set a b = length a == length b && all_in a b

-- The records of a snapshot, by id.
unfoldable pub snapshot_state : Snapshot → State
unfolding from_entries
snapshot_state s = from_entries (map (λ (r : Record). (r.id, r)) s.records)

unfoldable pub raw_entries : Disk → Result (List RawEntry)
unfolding parse_frames
raw_entries d = parse_frames d.log

module _ (c : Codec) where
  absorb_opened : State → Option Record → State
  unfolding absorb
  absorb_opened s none = s
  absorb_opened s (some rec) = absorb s rec

  -- The loop of `fold_from_snapshot`
  unfoldable pub fold_frames : Keyring → State → List RawEntry → Result State
  unfolding open_entry absorb_opened ◌>>=◌
  fold_frames kr s [] = done s
  fold_frames kr s ((id, blob) ∷ fs) = do
    opened ← open_entry c.decrypt c.from_slice id blob kr
    fold_frames kr (absorb_opened s opened) fs

  -- A snapshot is used if it covers a part of the log and was built with the keys that are held.
  unfoldable pub usable : Keyring → List RawEntry → Snapshot → Bool
  unfolding same_epoch_set held_share_epochs
  usable kr frames s =
      leb s.covered (length frames) && same_epoch_set s.shares (held_share_epochs kr)

  unfoldable pub start_of : Keyring → List RawEntry → Option Snapshot → State × ℕ
  unfolding usable snapshot_state
  start_of kr frames none = ([], 0)
  start_of kr frames (some s) =
      if usable kr frames s then (snapshot_state s, s.covered) else ([], 0)

  unfoldable pub fold_from_snapshot : Keyring → List RawEntry → Option Snapshot → Result (State × ℕ)
  unfolding start_of fold_frames ◌>>=◌
  fold_from_snapshot kr frames snapshot =
      let (state, start) = start_of kr frames snapshot in
      do state' ← fold_frames kr state (drop start frames); done (state', start)

  -- The records that `compact` can open.
  unfoldable pub open_all : Keyring → List RawEntry → Result (List Record)
  unfolding open_entry ◌>>=◌
  open_all kr [] = done []
  open_all kr ((id, blob) ∷ fs) = do
    opened ← open_entry c.decrypt c.from_slice id blob kr
    records ← open_all kr fs
    done (elim opened [ none ↦ records | some rec ↦ rec ∷ records ])

  unfoldable pub compact : Vault → Disk → Result (Bool × Vault × Disk)
  unfolding parse_frames open_all merge_all held_share_epochs values ◌>>=◌
  compact v d = do
    frames ← parse_frames d.log
    records ← open_all v.keyring frames
    let state = merge_all records
    if leb (length frames) (length state)
        then done (false, record v { state = state }, d)
        else done (
          true,
          record v { state = state },
          record d {
            snapshot = some (record {
              covered = length frames;
              shares = held_share_epochs v.keyring;
              records = values state;
            });
          },
        )

  unfoldable pub replay_log : Vault → Disk → Result (Vault × Disk)
  unfolding parse_frames fold_from_snapshot compact ◌>>=◌
  replay_log v d = do
    frames ← parse_frames d.log
    (state, covered) ← fold_from_snapshot v.keyring frames d.snapshot
    let v' = record v { state = state }
    let compacted = compact v' d
    if ltb 10000 (length frames - covered) && ltb (length state) (length frames)
        then compacted >>= (λ r. done (r.1, r.2))
        else done (v', d)

  -- The record is sealed under its share's newest key; the entry id and the nonce are random.
  unfoldable pub append : Text → Text → Record → Vault → Disk → Result (Vault × Disk)
  unfolding current_for write_frame absorb
  append entry_id nonce rec v d = elim (current_for v.keyring rec.share_id) [
    | none ↦ fail corrupt
    | some key ↦
        let blob = c.seal key (c.to_vec rec) entry_id nonce in
        done (record v { state = absorb v.state rec }, write_frame (entry_id, blob) d)
  ]

  abbrev advance : ℕ → Vault → Vault
  advance incoming v =
      if ltb v.meta.lamport incoming then with_meta v (record v.meta { lamport = incoming }) else v

  -- The frame is kept whether or not it opens.
  unfoldable pub apply_remote_entry : RawEntry → Vault → Disk → Result (Vault × Disk)
  unfolding open_entry absorb_disk_meta write_frame absorb write_meta ◌>>=◌
  apply_remote_entry (id, blob) v d = do
    opened ← open_entry c.decrypt c.from_slice id blob v.keyring
    let v' = absorb_disk_meta v d
    let d' = write_frame (id, blob) d
    done (elim opened [
      | none ↦ write_meta v' d'
      | some rec ↦
          write_meta (advance rec.clock.lamport (record v' { state = absorb v'.state rec })) d'
    ])
