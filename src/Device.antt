-- ===== src/Device.antt =====
-- src/device.rs: what a device asks of the relay about other devices and about shares.
pub mod Operations
pub mod Wrapping
pub mod Codes
pub mod Joining
pub mod Approval
use Prim.Native.Nat.{◌/◌, ◌%◌}
use sshvault.Prelude.{
  ℕ, ◌+◌, Bool, true, false, not, ◌||◌, ◌&&◌, Option, none, some, List, [], ◌∷◌, ◌++◌, map, take,
  length, ltb, ◌==◌, if◌then◌else◌,
}
use sshvault.Prelude.Order.{Text, text_eq}
use sshvault.Prelude.Texts.{bytes, lowercase}
use sshvault.Record.{Uuid, share_name}
use sshvault.Record.Payloads.{ShareName}
use sshvault.Record.Roundtrip.{form_of, share_name_form}
use sshvault.Crypto.{Primitives, wrap_vault_key}
use sshvault.Proto.{
  DeviceInfo, DevicesResp, ApproveReq, RevokeReq, WrappedFor, RotateReq, ShareGrantReq,
  ShareRotateReq, PushResp,
}
use sshvault.Vault.Fail.{VaultError, Result, done, fail, corrupt, duplicate}
use sshvault.Vault.Keyring.{
  Keyring, has_share, share_key_list, share_epoch, rotate_share, create_share,
}
use sshvault.Vault.Store.{Vault, Disk, Codec}
use sshvault.Vault.Edit.{add}
use sshvault.Vault.Listing.{resolve_share}
use sshvault.Vault.Keys.{vault_key_list, rotate}
use sshvault.Sync.{
  SyncError, vault_error, bad, Synced, synced, broken, Answer, unreachable, parse, Client,
}

pub data EnrollError : Type 0 where
  no_such_device ambiguous_code : EnrollError
  sync_error : SyncError → EnrollError
  vault_failed : VaultError → EnrollError

pub data Joined {ℓ} (A : Type ℓ) : Type ℓ where
  joined : A → Joined A
  stopped : EnrollError → Joined A

-- A byte as two hexadecimal digits.
abbrev hex_digit : ℕ → ℕ
hex_digit n = if ltb n 10 then n + b'0' else n + 87

abbrev hex : ℕ → Text
hex b = hex_digit (b / 16) ∷ hex_digit (b % 16) ∷ []

-- Four bytes in two groups of four digits.
unfoldable pub hex_groups : Text → Text
hex_groups (a ∷ b ∷ c ∷ rest) = hex a ++ hex b ++ (b'-' ∷ hex c) ++ hex_rest rest
  where
    hex_rest : Text → Text
    hex_rest [] = []
    hex_rest (d ∷ _) = hex d
hex_groups (a ∷ b ∷ []) = hex a ++ hex b
hex_groups (a ∷ []) = hex a
hex_groups [] = []

-- What a device asks for.
pub data Request : Type 0 where
  approve_req : ApproveReq → Request
  revoke_req : RevokeReq → Request
  rotate_req : RotateReq → Request
  grant_req : ShareGrantReq → Request
  share_rotate_req : ShareRotateReq → Request

-- The handle and the files, what the relay will answer to the listings and to the other requests,
-- in turn, and the requests that were sent.
pub record World : Type 0 where
  pub vault : Vault
  pub disk : Disk
  pub listings : List (Answer DevicesResp)
  pub replies : List (Answer PushResp)
  pub sent : List Request

abbrev pub Task {ℓ} : Type ℓ → Type ℓ
Task A = World → Joined A × World

next_task {ℓ κ} : {A : Type ℓ} {B : Type κ} → Joined A × World → (A → Task B) → Joined B × World
next_task (joined a, w) f = f a w
next_task (stopped e, w) f = (stopped e, w)

module _ {ℓ κ} {A : Type ℓ} {B : Type κ} where
  infixl 10 ◌>>=◌
  unfoldable pub ◌>>=◌ : Task A → (A → Task B) → Task B
  unfolding next_task
  (t >>= f) w = next_task (t w) f

module _ {ℓ} {A : Type ℓ} where
  unfoldable pub pure : A → Task A
  pure a w = (joined a, w)

  unfoldable pub stop : EnrollError → Task A
  stop e w = (stopped e, w)

  from_sync : Synced A → Joined A
  from_sync (synced a) = joined a
  from_sync (broken e) = stopped (sync_error e)

  unfoldable pub lift : Synced A → Task A
  unfolding from_sync
  lift r w = (from_sync r, w)

  unfoldable pub ask : (Vault → A) → Task A
  ask f w = (joined (f w.vault), w)

-- The next of the answers; when they are spent the relay is not reached.
next_answer {ℓ} : {A : Type ℓ} → List (Answer A) → Answer A × List (Answer A)
next_answer [] = (unreachable, [])
next_answer (a ∷ rest) = (a, rest)

-- `list_devices`
unfoldable pub list_devices : Task (List DeviceInfo)
unfolding next_answer parse from_sync
list_devices w =
    let (answer, rest) = next_answer w.listings in
    let w' = record w { listings = rest } in
    elim (parse answer) [
      | synced resp ↦ (joined resp.devices, w')
      | broken e ↦ (stopped (sync_error e), w')
    ]

-- `sync::post`
unfoldable pub post : Request → Task PushResp
unfolding next_answer parse from_sync
post req w =
    let (answer, rest) = next_answer w.replies in
    (from_sync (parse answer), record w { replies = rest; sent = w.sent ++ (req ∷ []) })

-- `.ok().and_then(|b| b.try_into().ok())` of 32 bytes
unfoldable pub thirty_two : Option Text → Synced Text
thirty_two none = broken bad
thirty_two (some b) = if length b == 32 then synced b else broken bad

unfoldable pub single : List DeviceInfo → Joined DeviceInfo
single [] = stopped no_such_device
single (d ∷ []) = joined d
single (d ∷ e ∷ rest) = stopped ambiguous_code

module _ (client : Client) where
  -- `short_code`: bytes that do not decode have the empty code.
  unfoldable pub short_code : Text → Text
  unfolding hex_groups
  short_code b64 = elim (client.b64_decode b64) [ none ↦ [] | some b ↦ hex_groups (take 4 b) ]

  unfoldable pub matches : Text → List DeviceInfo → List DeviceInfo
  unfolding short_code
  matches code [] = []
  matches code (d ∷ ds) =
      let rest = matches code ds in
      if text_eq (short_code d.ed25519_pub_b64) code then d ∷ rest else rest

  -- A code has no other letters than those of ASCII.
  unfoldable pub find_by_code : Text → Task DeviceInfo
  unfolding lowercase list_devices matches single ◌>>=◌
  find_by_code code = do
    devices ← list_devices
    (λ w. (single (matches (lowercase code) devices), w))

  -- The key list wrapped for a device; the ephemeral secret and the nonce are given for each device.
  unfoldable pub wrap_for : (Text → Text × Text) → Text → DeviceInfo → Synced Text
  unfolding thirty_two wrap_vault_key
  wrap_for fresh key_list d = elim (thirty_two (client.b64_decode d.x25519_pub_b64)) [
    | broken e ↦ broken e
    | synced x_pub ↦ elim (thirty_two (client.b64_decode d.ed25519_pub_b64)) [
      | broken e ↦ broken e
      | synced ed ↦
          let (eph, nonce) = fresh d.ed25519_pub_b64 in
          synced (client.b64_encode (wrap_vault_key client.primitives eph nonce key_list x_pub ed))
    ]
  ]
