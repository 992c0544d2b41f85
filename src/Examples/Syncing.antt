-- ===== src/Examples/Syncing.antt =====
-- A round with a relay that has one entry, a relay that refuses, and a list of two devices.
use sshvault.Prelude.{
  ℕ, ◌≡◌, Bool, refl, some, none, true, false, List, [], ◌∷◌, ◌++◌, All, map, drop, arith,
}
use sshvault.Prelude.Order.{Text}
use sshvault.Prelude.Texts.{bytes, lowercase}
use sshvault.Record.{Uuid}
use sshvault.Crypto.{Primitives, Documented, ok, wrap_vault_key, unwrap_vault_key}
use sshvault.Crypto.Boxes.{unwrap_vault_key-wrap_vault_key}
use sshvault.Crypto.Epochs.{vault_key_info-injective}
use sshvault.Proto.{SharesResp, WireEntry, PushResp, DeviceInfo, WrappedFor}
use sshvault.Vault.Fail.{done}
use sshvault.Vault.Keyring.{Keyring}
use sshvault.Vault.Store.{Vault, Disk, Meta, Codec}
use sshvault.Vault.Edit.{raw_entries_tagged}
use sshvault.Sync.{
  rejected, synced, broken, answered, refused, Client, Relay, wire_entries, heal_shares, sync_once,
}
use sshvault.Vault.Keyring.Holding.{KeepsShares}
use sshvault.Sync.Holds.{IsHeld}
use sshvault.Sync.Pulls.{Exchanged, start}
use sshvault.Sync.Rounds.{sync_once-Exchanged}
use sshvault.Sync.Daemon.{failed, dropped, waits, round}
use sshvault.Sync.Backoff.{InRange, waits_bounds}
use sshvault.Device.{World, joined, list_devices, find_by_code}
use sshvault.Device.Codes.{Unique, find_by_code-Unique}
use sshvault.Device.Operations.{rewrap}
use sshvault.Device.Wrapping.{remaining, unwrapped, rewrap-remaining}

abbrev pub sixteen : ℕ → Text
sixteen n = n ∷ n ∷ n ∷ n ∷ n ∷ n ∷ n ∷ n ∷ n ∷ n ∷ n ∷ n ∷ n ∷ n ∷ n ∷ n ∷ []

-- A tag of sixteen bytes in front, and one public key for all.
abbrev pub primitives : Primitives
primitives = record {
  encrypt = λ key nonce msg aad. sixteen 0 ++ msg;
  decrypt = λ key nonce ct aad. some (drop 16 ct);
  public = λ secret. sixteen 5 ++ sixteen 5;
  diffie_hellman = λ a b. b;
  expand = λ secret info. sixteen 7 ++ sixteen 7;
  hash_password = λ pass salt m t p. some salt;
  to_seed = λ phrase. some phrase;
}

pub documented : Documented primitives
documented = record {
  decrypt-encrypt = λ key nonce msg aad. refl;
  length-encrypt = λ key nonce msg aad. omega arith;
  length-public = λ secret. refl;
  agreement = λ a b. refl;
}

abbrev pub nonce : Text
nonce = sixteen 3 ++ (3 ∷ 3 ∷ 3 ∷ 3 ∷ 3 ∷ 3 ∷ 3 ∷ 3 ∷ [])

unwrap_vault_key-wrap_vault_key_example :
    unwrap_vault_key primitives
      (1 ∷ [])
      (wrap_vault_key primitives (2 ∷ []) nonce (9 ∷ 9 ∷ []) (primitives.public (1 ∷ [])) (4 ∷ []))
      (4 ∷ [])
    ≡ ok (9 ∷ 9 ∷ [])
unwrap_vault_key-wrap_vault_key_example =
    unwrap_vault_key-wrap_vault_key primitives documented (1 ∷ []) (2 ∷ []) nonce (9 ∷ 9 ∷ [])
      (4 ∷ []) refl

abbrev twelve : ℕ
twelve = 12

vault_key_info-injective_example : twelve ≡ 12
vault_key_info-injective_example =
    vault_key_info-injective twelve 12 (omega arith) (omega arith) refl

-- Base64 is left as it is.
abbrev pub client : Client
client = record {
  b64_encode = λ x. x;
  b64_decode = λ x. some x;
  primitives = primitives;
  sign_bytes = λ key msg. [];
  verifying_key = λ key. key;
  uuid_bytes = λ id. sixteen id;
}

abbrev key : Text
key = sixteen 8 ++ sixteen 8

abbrev ring : Keyring
ring = record {
  shares = record { id = 0; keys = key ∷ [] } ∷ [];
  vault_keys = [];
  vault_key = none;
  x25519_secret = [];
  ed25519_secret = [];
}

abbrev meta : Meta
meta = record {
  vault_id = 1;
  device_id = 2;
  device_name = [];
  kdf = record { salt_b64 = []; m_kib = 1; t = 1; p = 1 };
  x25519_pub_b64 = [];
  ed25519_pub_b64 = [];
  recovery_pub_b64 = [];
  lamport = 4;
  relay_url = some (bytes "http://r");
  sync_cursor = 0;
}

abbrev codec : Codec
codec = record {
  seal = λ k p a n. k ++ a;
  decrypt = λ k b a. none;
  to_vec = λ r. r.id ∷ [];
  from_slice = λ b. none;
}

abbrev vault : Vault
vault = record { meta = meta; keyring = ring; state = [] }

abbrev disk : Disk
disk = record { meta = some meta; log = []; snapshot = none }

abbrev entry : WireEntry
entry = record { entry_id_b64 = sixteen 6; blob_b64 = 1 ∷ 2 ∷ []; share_id_b64 = sixteen 0 }

abbrev relay : Relay
relay = record {
  wrapped = answered (record { approved = true; wrapped_key_b64 = none; epoch = 0 });
  shares = answered (record {
    shares =
        record {
          share_id_b64 = sixteen 4;
          epoch = 1;
          wrapped_key_b64 = wrap_vault_key primitives (2 ∷ []) nonce key (primitives.public []) [];
        }
        ∷ [];
  });
  push = λ req. answered (record { head = 0; stored = 0 });
  pull = λ since. answered (record { entries = entry ∷ []; head = 1 });
}

abbrev after_vault : Vault
after_vault = (sync_once client codec relay vault disk).1

abbrev after_disk : Disk
after_disk = (sync_once client codec relay vault disk).2

ran : sync_once client codec relay vault disk ≡ (synced (0, 1), after_vault, after_disk)
unfolding sync_once sshvault.Vault.Frames.parse_from wrap_vault_key
ran = refl

two_shares : map (λ s. s.keys) after_vault.keyring.shares ≡ (key ∷ []) ∷ (key ∷ []) ∷ []
unfolding sync_once sshvault.Vault.Frames.parse_from wrap_vault_key
two_shares = refl

sync_once-Exchanged_example :
    (gained : Bool) × (healed : Vault) × (local : List (Text × Text × Uuid)) × (pushed : PushResp)
    × (heal_shares client relay vault disk ≡ (synced gained, healed, disk))
    × ((told : SharesResp) × (relay.shares ≡ answered told)
        × All (IsHeld client healed.keyring) told.shares)
    × KeepsShares vault.keyring healed.keyring
    × (raw_entries_tagged codec healed disk ≡ done local)
    × (relay.push (record { entries = wire_entries client local }) ≡ answered pushed)
    × Exchanged client codec relay
        (start gained healed)
        (map (λ e. e.0) local)
        pushed
        disk
        (0, 1)
        after_vault
        after_disk
sync_once-Exchanged_example =
    sync_once-Exchanged client codec relay vault after_vault disk after_disk (0, 1) ran

abbrev shut : Relay
shut = record relay { wrapped = refused 403 }

refused_round : round client codec shut vault disk ≡ (broken (rejected 403), vault, disk)
unfolding round sshvault.Vault.Frames.parse_from
refused_round = refl

waits_bounds_example :
    All InRange (waits 1 (failed ∷ dropped 99 ∷ []))
    × All
        (λ w. w ≡ some 60)
        (drop 6
          (waits 1 (failed ∷ failed ∷ dropped 2 ∷ failed ∷ failed ∷ failed ∷ failed ∷ failed ∷ [])))
waits_bounds_example =
    waits_bounds (failed ∷ dropped 99 ∷ [])
      (failed ∷ failed ∷ dropped 2 ∷ failed ∷ failed ∷ failed ∷ failed ∷ failed ∷ [])
      (refl, (refl, (refl, (refl, (refl, (refl, (refl, (refl, tt))))))))

abbrev device : ℕ → DeviceInfo
device n = record {
  name = n ∷ [];
  ed25519_pub_b64 = sixteen n ++ sixteen n;
  x25519_pub_b64 = sixteen 5 ++ sixteen 5;
  approved = true;
  revoked = false;
}

abbrev listing : List DeviceInfo
listing = device 1 ∷ device 171 ∷ []

abbrev world : World
world = record {
  vault = vault;
  disk = disk;
  listings = answered (record { devices = listing }) ∷ [];
  replies = [];
  sent = [];
}

looked_up :
    find_by_code client (bytes "ABAB-abab") world
    ≡ (joined (device 171), record world { listings = [] })
unfolding find_by_code
looked_up = refl

find_by_code-Unique_example :
    (devices : List DeviceInfo) × (list_devices world
      ≡ (joined devices, record world { listings = [] }))
    × Unique client (lowercase (bytes "ABAB-abab")) devices (device 171)
find_by_code-Unique_example =
    find_by_code-Unique client (bytes "ABAB-abab") world (record world { listings = [] })
      (device 171) looked_up

abbrev fresh : Text → Text × Text
fresh k = (1 ∷ [], nonce)

abbrev wrapped : List WrappedFor
wrapped =
    record {
      device_pub_b64 = (device 171).ed25519_pub_b64;
      wrapped_key_b64 =
          wrap_vault_key primitives (1 ∷ []) nonce key (sixteen 5 ++ sixteen 5)
            (device 171).ed25519_pub_b64;
    }
    ∷ []

rewrapped : rewrap client fresh (device 1).ed25519_pub_b64 key listing ≡ synced wrapped
unfolding rewrap
rewrapped = refl

rewrap-remaining_example :
    (map (λ w. w.device_pub_b64) wrapped ≡ remaining (device 1).ed25519_pub_b64 listing)
    × All (λ w. unwrapped client w.device_pub_b64 w ≡ ok key) wrapped
rewrap-remaining_example =
    rewrap-remaining client documented (λ x. refl) fresh (λ k. refl) (λ k. k) key
      (device 1).ed25519_pub_b64 listing wrapped (refl, (refl, tt)) rewrapped
