-- ===== src/Device/Operations.antt =====
-- The operations of src/device.rs: approving and revoking devices, and shares.
use sshvault.Prelude.{ℕ, not, ◌||◌, ◌&&◌, Option, none, some, List, [], ◌∷◌, ◌++◌, if◌then◌else◌}
use sshvault.Prelude.Order.{Text, text_eq}
use sshvault.Prelude.Texts.{bytes}
use sshvault.Record.{Uuid, share_name}
use sshvault.Record.Payloads.{ShareName}
use sshvault.Record.Roundtrip.{form_of, share_name_form}
use sshvault.Proto.{DeviceInfo, WrappedFor}
use sshvault.Vault.Fail.{Result, done, fail, corrupt, duplicate}
use sshvault.Vault.Keyring.{has_share, share_key_list, share_epoch, rotate_share, create_share}
use sshvault.Vault.Store.{Vault, Disk, Codec}
use sshvault.Vault.Edit.{add}
use sshvault.Vault.Listing.{resolve_share}
use sshvault.Vault.Keys.{vault_key_list, rotate}
use sshvault.Sync.{synced, broken, Synced, Client}
use sshvault.Device.{
  vault_failed, Joined, joined, stopped, Request, approve_req, revoke_req, rotate_req, grant_req,
  share_rotate_req, World, Task, ◌>>=◌, pure, stop, lift, ask, list_devices, post, short_code,
  find_by_code, wrap_for,
}

-- A change of the handle that tells something.
told {ℓ} : {A : Type ℓ} → Result (A × Vault) → World → Joined A × World
told (done (a, v)) w = (joined a, record w { vault = v })
told (fail e) w = (stopped (vault_failed e), w)

rotated : Uuid → Text → Vault → Result (ℕ × Vault)
unfolding rotate_share
rotated share key v = elim (rotate_share share key v.keyring) [
  | fail e ↦ fail e
  | done (epoch, kr) ↦ done (epoch, record v { keyring = kr })
]

-- The member list of a share: every device that is approved and not revoked.
unfoldable pub member_keys : List DeviceInfo → List Text
member_keys [] = []
member_keys (d ∷ ds) =
    let rest = member_keys ds in
    if d.approved && not d.revoked then d.ed25519_pub_b64 ∷ rest else rest

abbrev name_of : Text → Text → ShareName
name_of name id = record { name = name; share_id_b64 = id }

-- `share_members`
unfoldable pub share_members : Task (List Text)
unfolding list_devices member_keys pure ◌>>=◌
share_members = do devices ← list_devices; pure (member_keys devices)

added : Result Uuid × Vault × Disk → World → Joined Uuid × World
added (done id, v, d) w = (joined id, record w { vault = v; disk = d })
added (fail e, v, d) w = (stopped (vault_failed e), record w { vault = v; disk = d })

named : Option Uuid → Task (Unit {0})
unfolding pure stop
named none = pure tt
named (some _) = stop (vault_failed duplicate)

-- The random choices of `create_share`: the share's id and key, the record's id, the entry id, the
-- nonce and the time.
pub record Chosen : Type 0 where
  pub share : Uuid
  pub key : Text
  pub record_id : Uuid
  pub entry_id : Text
  pub nonce : Text
  pub now : ℕ

module _ (client : Client) (fresh : Text → Text × Text) where
  -- `approve`: the device's name.
  unfoldable pub approve : Text → Task Text
  unfolding find_by_code wrap_for vault_key_list ask lift post pure ◌>>=◌
  approve code = do
    target ← find_by_code client code
    key_list ← ask vault_key_list
    wrapped ← lift (wrap_for client fresh key_list target)
    _ ← post (
        approve_req (record { target_pub_b64 = target.ed25519_pub_b64; wrapped_key_b64 = wrapped }))
    pure target.name

  unfoldable pub revoke : Text → Task Text
  unfolding find_by_code post pure ◌>>=◌
  revoke code = do
    target ← find_by_code client code
    _ ← post (revoke_req (record { target_pub_b64 = target.ed25519_pub_b64 }))
    pure target.name

  -- The loop that wraps the new key list for every remaining device.
  unfoldable pub rewrap : Text → Text → List DeviceInfo → Synced (List WrappedFor)
  unfolding wrap_for
  rewrap target key_list [] = synced []
  rewrap target key_list (d ∷ ds) =
      let rest = rewrap target key_list ds in
      if d.revoked || text_eq d.ed25519_pub_b64 target
      then rest
      else elim (wrap_for client fresh key_list d) [
        | broken e ↦ broken e
        | synced wrapped ↦ elim rest [
          | broken e ↦ broken e
          | synced ws ↦
              synced (record { device_pub_b64 = d.ed25519_pub_b64; wrapped_key_b64 = wrapped } ∷ ws)
        ]
      ]

  unfoldable pub revoke_and_rotate : Text → Text → Task Text
  unfolding find_by_code revoke rotate told vault_key_list list_devices rewrap ask lift post pure
      ◌>>=◌
  revoke_and_rotate code phrase = do
    target ← find_by_code client code
    name ← revoke code
    epoch ← (λ w. told (rotate client.primitives phrase w.vault) w)
    key_list ← ask vault_key_list
    devices ← list_devices
    wrapped ← lift (rewrap target.ed25519_pub_b64 key_list devices)
    _ ← post (rotate_req (record { epoch = epoch; wrapped = wrapped }))
    pure name

  -- The devices are looked up one by one.
  unfoldable pub wrap_for_codes : Text → List Text → Task (List WrappedFor)
  unfolding find_by_code wrap_for lift pure ◌>>=◌
  wrap_for_codes key_list [] = pure []
  wrap_for_codes key_list (code ∷ codes) = do
    d ← find_by_code client code
    wrapped ← lift (wrap_for client fresh key_list d)
    rest ← wrap_for_codes key_list codes
    pure (record { device_pub_b64 = d.ed25519_pub_b64; wrapped_key_b64 = wrapped } ∷ rest)

  abbrev grant : Uuid → List WrappedFor → Vault → Request
  grant share wrapped v = grant_req (record {
    share_id_b64 = client.b64_encode (client.uuid_bytes share);
    epoch = share_epoch v.keyring share;
    wrapped = wrapped;
  })

  unfoldable pub share_add : Uuid → List Text → Task (Unit {0})
  unfolding has_share share_key_list share_epoch wrap_for_codes ask post pure stop ◌>>=◌
  share_add share member_codes = do
    held ← ask (λ v. has_share v.keyring share)
    _ ← (if held then pure (tt {0}) else stop (vault_failed corrupt))
    key_list ← ask (λ v. share_key_list v.keyring share)
    wrapped ← wrap_for_codes key_list member_codes
    req ← ask (grant share wrapped)
    _ ← post req
    pure tt

  -- The codes of the members that stay; each is looked up again.
  unfoldable pub remaining_codes : Text → List Text → List Text
  unfolding short_code
  remaining_codes target [] = []
  remaining_codes target (m ∷ ms) =
      let rest = remaining_codes target ms in
      if text_eq m target then rest else short_code client m ∷ rest

  -- The random key is given.
  unfoldable pub share_remove : Uuid → Text → Text → Task Text
  unfolding has_share find_by_code told rotated share_key_list share_members remaining_codes
      wrap_for_codes ask post pure stop ◌>>=◌
  share_remove share member_code key = do
    held ← ask (λ v. has_share v.keyring share)
    _ ← (if held then pure (tt {0}) else stop (vault_failed corrupt))
    target ← find_by_code client member_code
    epoch ← (λ w. told (rotated share key w.vault) w)
    key_list ← ask (λ v. share_key_list v.keyring share)
    members ← share_members
    wrapped ← wrap_for_codes key_list (remaining_codes target.ed25519_pub_b64 members)
    _ ← post (
        share_rotate_req (record {
          share_id_b64 = client.b64_encode (client.uuid_bytes share);
          epoch = epoch;
          wrapped = wrapped;
          remove = target.ed25519_pub_b64 ∷ [];
        }))
    pure target.name

  -- The name is recorded in the default share, and the key list goes to the members and to the
  -- device itself.
  unfoldable pub create_share_named : Codec → Chosen → Text → List Text → Task Uuid
  unfolding resolve_share named create_share add added wrap_for_codes short_code share_key_list
      share_epoch ask post pure ◌>>=◌
  create_share_named c chosen name member_codes = do
    known ← ask (resolve_share client.b64_decode name)
    _ ← named known
    _ ← (λ w. (
      joined (tt {0}),
      record w {
        vault = record w.vault { keyring = create_share chosen.share chosen.key w.vault.keyring };
      },
    ))
    _ ← (λ w.
        added
          (add c ⦃form = form_of share_name_form⦄ chosen.entry_id chosen.nonce chosen.now
            chosen.record_id share_name (bytes "name") name
            (name_of name (client.b64_encode (client.uuid_bytes chosen.share))) w.vault w.disk)
          w)
    key_list ← ask (λ v. share_key_list v.keyring chosen.share)
    wrapped ← wrap_for_codes key_list member_codes
    self_code ← ask (λ v. short_code client v.meta.ed25519_pub_b64)
    own ← wrap_for_codes key_list (self_code ∷ [])
    req ← ask (grant chosen.share (wrapped ++ own))
    _ ← post req
    pure chosen.share
