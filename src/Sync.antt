-- ===== src/Sync.antt =====
-- src/sync.rs: a round of synchronisation, and the daemon that repeats it. What the relay answers
-- is a parameter, as are base64 and the signature.
pub mod Heals
pub mod Holds
pub mod Runs
pub mod Storing
pub mod Pulls
pub mod Rounds
pub mod Daemon
pub mod Backoff
use sshvault.Prelude.{
  ℕ, ◌+◌, Bool, true, false, not, ◌||◌, Option, none, some, List, [], ◌∷◌, ◌++◌, foldl, map, length,
  ltb, leb, ◌==◌, if◌then◌else◌,
}
use sshvault.Prelude.Order.{Text, text_eq}
use sshvault.Record.{Uuid, nil_uuid}
use sshvault.Crypto.{Primitives, ok, err, unwrap_vault_key}
use sshvault.Proto.{
  WireEntry, PushReq, PushResp, PullResp, ShareMembership, SharesResp, WrappedResp, Signed,
}
use sshvault.Proto.Message.{signing_message}
use sshvault.Vault.Fail.{VaultError, corrupt, crypto, Result, done, fail}
use sshvault.Vault.Keyring.{share_epoch, has_share}
use sshvault.Vault.Store.{
  Vault, Disk, Codec, set_sync_cursor, reset_sync_cursor, apply_remote_entry,
}
use sshvault.Vault.Edit.{raw_entries_tagged}
use sshvault.Vault.Listing.{uuid_from_slice}
use sshvault.Vault.Keys.{epoch, absorb_key_list, absorb_vault_key_list}

pub data SyncError : Type 0 where
  no_relay http : SyncError
  rejected : ℕ → SyncError
  vault_error : VaultError → SyncError

pub data Synced {ℓ} (A : Type ℓ) : Type ℓ where
  synced : A → Synced A
  broken : SyncError → Synced A

-- What comes back from the relay: a body, a status that is no success, or nothing.
pub data Answer {ℓ} (A : Type ℓ) : Type ℓ where
  answered : A → Answer A
  refused : ℕ → Answer A
  unreachable : Answer A

-- `parse`
unfoldable pub parse {ℓ} : {A : Type ℓ} → Answer A → Synced A
parse (answered a) = synced a
parse (refused status) = broken (rejected status)
parse unreachable = broken http

-- `bad`
abbrev pub bad : SyncError
bad = vault_error corrupt

-- A step on the handle and the files; what was changed before an error stays changed.
abbrev pub Step {ℓ} : Type ℓ → Type ℓ
Step A = Vault → Disk → Synced A × Vault × Disk

next_step {ℓ κ} :
    {A : Type ℓ} {B : Type κ} → Synced A × Vault × Disk → (A → Step B) → Synced B × Vault × Disk
next_step (synced a, v, d) f = f a v d
next_step (broken e, v, d) f = (broken e, v, d)

module _ {ℓ κ} {A : Type ℓ} {B : Type κ} where
  infixl 10 ◌>>=◌
  unfoldable pub ◌>>=◌ : Step A → (A → Step B) → Step B
  unfolding next_step
  (s >>= f) v d = next_step (s v d) f

module _ {ℓ} {A : Type ℓ} where
  unfoldable pub lift : Synced A → Step A
  lift r v d = (r, v, d)

  unfoldable pub pure : A → Step A
  pure a v d = (synced a, v, d)

  -- What the handle tells.
  unfoldable pub ask : (Vault → A) → Step A
  ask f v d = (synced (f v), v, d)

  from_result : Result A → Synced A
  from_result (done a) = synced a
  from_result (fail e) = broken (vault_error e)

  -- A reading of the files
  unfoldable pub query : (Vault → Disk → Result A) → Step A
  unfolding from_result
  query f v d = (from_result (f v d), v, d)

wrote : Result (Vault × Disk) → Vault → Disk → Synced (Unit {0}) × Vault × Disk
wrote (done (v', d')) v d = (synced tt, v', d')
wrote (fail e) v d = (broken (vault_error e), v, d)

-- A change that fails changes nothing.
unfoldable pub change : (Vault → Disk → Result (Vault × Disk)) → Step (Unit {0})
unfolding wrote
change f v d = wrote (f v d) v d

unfoldable pub put : (Vault → Disk → Vault × Disk) → Step (Unit {0})
put f v d = let (v', d') = f v d in (synced tt, v', d')

-- A change of the keyring
unfoldable pub rekeyed : Result Vault → Vault → Disk → Synced (Unit {0}) × Vault × Disk
rekeyed (done v') v d = (synced tt, v', d)
rekeyed (fail e) v d = (broken (vault_error e), v, d)

unfoldable pub rekey : (Vault → Result Vault) → Step (Unit {0})
unfolding rekeyed
rekey f v d = rekeyed (f v) v d

pub record Client : Type 0 where
  pub b64_encode : Text → Text
  pub b64_decode : Text → Option Text
  pub primitives : Primitives
  -- the signature by the secret key, and its public key
  pub sign_bytes : Text → Text → Text
  pub verifying_key : Text → Text
  -- the 16 bytes of an id
  pub uuid_bytes : Uuid → Text

-- What the relay answers in one round, to the requests in the order in which they are sent.
pub record Relay : Type 0 where
  pub wrapped : Answer WrappedResp
  pub shares : Answer SharesResp
  pub push : PushReq → Answer PushResp
  pub pull : ℕ → Answer PullResp

-- `v.try_into()` of 16 bytes
unfoldable pub sixteen : Text → Option Text
sixteen b = if length b == 16 then some b else none

unfoldable pub contains_id : List Text → Text → Bool
contains_id [] id = false
contains_id (i ∷ is) id = if text_eq i id then true else contains_id is id

-- Nothing is done without a relay.
unfoldable pub with_url {ℓ} : {A : Type ℓ} → Option Text → Step A → Step A
with_url none s v d = (broken no_relay, v, d)
with_url (some _) s v d = s v d

-- Whether the membership changed decides where the pull starts.
unfoldable pub rewind : Bool → Step (Unit {0})
unfolding put pure reset_sync_cursor
rewind true = put reset_sync_cursor
rewind false = pure tt

module _ (client : Client) where
  -- `sign`: the time is given.
  unfoldable pub sign : ℕ → Text → Vault → Signed
  unfolding signing_message
  sign ts body v = record {
    vault_id_b64 = client.b64_encode (client.uuid_bytes v.meta.vault_id);
    device_pub_b64 = client.b64_encode (client.verifying_key v.keyring.ed25519_secret);
    sig_b64 =
        client.b64_encode (client.sign_bytes v.keyring.ed25519_secret (signing_message ts body));
    ts = ts;
    body = body;
  }

  unfoldable pub decode16 : Text → Synced Text
  unfolding sixteen
  decode16 b64 = elim (client.b64_decode b64) [
    | none ↦ broken bad
    | some b ↦ elim (sixteen b) [ none ↦ broken bad | some id ↦ synced id ]
  ]

  unfoldable pub unwrap_for : Text → Step Text
  unfolding unwrap_vault_key
  unwrap_for wrapped_b64 v d = elim (client.b64_decode wrapped_b64) [
    | none ↦ (broken bad, v, d)
    | some wrapped ↦
        elim (unwrap_vault_key client.primitives v.keyring.x25519_secret wrapped
          (client.verifying_key v.keyring.ed25519_secret)) [
            | err _ ↦ (broken (vault_error crypto), v, d)
            | ok list ↦ (synced list, v, d)
          ]
  ]

  unfoldable pub absorb_default : Text → Step (Unit {0})
  unfolding unwrap_for absorb_vault_key_list rekey ◌>>=◌
  absorb_default wrapped_b64 = do list ← unwrap_for wrapped_b64; rekey (absorb_vault_key_list list)

  unfoldable pub heal_default : WrappedResp → Step (Unit {0})
  unfolding epoch absorb_default pure
  heal_default resp v d =
      if ltb (epoch v) resp.epoch
      then elim resp.wrapped_key_b64 [ none ↦ pure tt v d | some w ↦ absorb_default w v d ]
      else pure tt v d

  -- The id of a share as the relay spells it; what is malformed is passed over.
  unfoldable pub share_of : Text → Option Uuid
  unfolding uuid_from_slice
  share_of b64 = elim (client.b64_decode b64) [ none ↦ none | some b ↦ uuid_from_slice b ]

  unfoldable pub absorb_named : Text → Uuid → Step (Unit {0})
  unfolding unwrap_for absorb_key_list rekey ◌>>=◌
  absorb_named wrapped_b64 share = do
    list ← unwrap_for wrapped_b64
    rekey (absorb_key_list share list)

  -- One round of the loop over the memberships, and whether a share was gained.
  unfoldable pub heal_share : ShareMembership → Step Bool
  unfolding share_of has_share share_epoch absorb_named pure ◌>>=◌
  heal_share m v d = elim (share_of m.share_id_b64) [
    | none ↦ pure false v d
    | some share ↦
        let had = has_share v.keyring share in
        if share == nil_uuid
        then pure false v d
        else if not had || ltb (share_epoch v.keyring share) m.epoch
        then (absorb_named m.wrapped_key_b64 share >>= (λ _. pure (not had))) v d
        else pure false v d
  ]

  unfoldable pub heal_each : Bool → List ShareMembership → Step Bool
  unfolding heal_share pure ◌>>=◌
  heal_each gained [] = pure gained
  heal_each gained (m ∷ ms) = do new ← heal_share m; heal_each (gained || new) ms

  unfoldable pub heal_shares : Relay → Step Bool
  unfolding heal_default heal_each parse lift ◌>>=◌
  heal_shares relay = do
    wrapped ← lift (parse relay.wrapped)
    _ ← heal_default wrapped
    resp ← lift (parse relay.shares)
    heal_each false resp.shares

  unfoldable pub wire_entries : List (Text × Text × Uuid) → List WireEntry
  wire_entries [] = []
  wire_entries ((id, blob, share) ∷ es) =
      record {
        entry_id_b64 = client.b64_encode id;
        blob_b64 = client.b64_encode blob;
        share_id_b64 = client.b64_encode (client.uuid_bytes share);
      }
      ∷ wire_entries es

  unfoldable pub decode_blob : Text → Synced Text
  decode_blob b64 = elim (client.b64_decode b64) [ none ↦ broken bad | some b ↦ synced b ]

  -- The body of the loop over what the relay sent, and whether it stored the entry: one that was
  -- there before the round is passed over.
  unfoldable pub store_entry : Codec → List Text → WireEntry → Text → Step Bool
  unfolding decode_blob contains_id lift pure change apply_remote_entry ◌>>=◌
  store_entry c have e id = if contains_id have id then pure false else (do
    blob ← lift (decode_blob e.blob_b64)
    _ ← change (apply_remote_entry c (id, blob))
    pure true)

  unfoldable pub apply_entries : Codec → List Text → ℕ → List WireEntry → Step ℕ
  unfolding decode16 store_entry lift pure ◌>>=◌
  apply_entries c have pulled [] = pure pulled
  apply_entries c have pulled (e ∷ es) = do
    id ← lift (decode16 e.entry_id_b64)
    stored ← store_entry c have e id
    apply_entries c have (if stored then pulled + 1 else pulled) es

  -- The pull: what is new is applied, and then the cursor moves to the relay's head.
  unfoldable pub receive : Codec → List Text → ℕ → PullResp → Step (ℕ × ℕ)
  unfolding apply_entries set_sync_cursor put pure ◌>>=◌
  receive c have stored resp = do
    pulled ← apply_entries c have 0 resp.entries
    _ ← put (set_sync_cursor resp.head)
    pure (stored, pulled)

  unfoldable pub pull_since : Codec → Relay → List Text → ℕ → ℕ → Step (ℕ × ℕ)
  unfolding receive parse lift ◌>>=◌
  pull_since c relay have stored since = do
    resp ← lift (parse (relay.pull since))
    receive c have stored resp

  unfoldable pub pull_after : Codec → Relay → Bool → List Text → PushResp → Step (ℕ × ℕ)
  unfolding rewind ask pull_since ◌>>=◌
  pull_after c relay membership_changed have pushed = do
    _ ← rewind membership_changed
    since ← ask (λ v. v.meta.sync_cursor)
    pull_since c relay have pushed.stored since

  unfoldable pub push_then_pull : Codec → Relay → Bool → List (Text × Text × Uuid) → Step (ℕ × ℕ)
  unfolding wire_entries parse lift pull_after ◌>>=◌
  push_then_pull c relay membership_changed local = do
    pushed ← lift (parse (relay.push (record { entries = wire_entries local })))
    pull_after c relay membership_changed (map (λ e. e.0) local) pushed

  unfoldable pub exchange : Codec → Relay → Step (ℕ × ℕ)
  unfolding heal_shares raw_entries_tagged query push_then_pull ◌>>=◌
  exchange c relay = do
    membership_changed ← heal_shares relay
    local ← query (raw_entries_tagged c)
    push_then_pull c relay membership_changed local

  -- `sync_once`: how many entries the relay stored, and how many were pulled.
  unfoldable pub sync_once : Codec → Relay → Step (ℕ × ℕ)
  unfolding exchange with_url
  sync_once c relay v d = with_url v.meta.relay_url (exchange c relay) v d
