-- ===== src/Relay/Views.antt =====
-- The signed queries of src/relay.rs that only read: the devices of a vault, and a device's
-- wrapped key-list.
use Prim.Native.String.{String}
use mathlib.Core.Option
use sshvault.Prelude.{ℕ, not, Option, none, some, ◌∷◌, ◌++◌, map}
use sshvault.Prelude.Order.{Text, text_eq}
use sshvault.Prelude.Texts.{bytes}
use sshvault.Proto.{Signed, DeviceInfo, DevicesResp, WrappedResp}
use sshvault.Relay.Db.{VaultRow, DeviceRow, is_vault, first_row, rows_where, device_row, can_sync}
use sshvault.Relay.Handler.{
  Handler, forbidden, not_found, pure, guard, or_raise, query, ◌>>=◌, ◌>>◌,
}
use sshvault.Relay.Auth.{Env, verify}

-- `SignedQuery::into_signed`: what is signed is the action, a colon and the vault.
unfoldable pub signed_query : String → Text → Text → Text → ℕ → Signed
signed_query action vault device sig ts = record {
  vault_id_b64 = vault;
  device_pub_b64 = device;
  sig_b64 = sig;
  ts = ts;
  body = bytes action ++ b':' ∷ vault;
}

-- `SELECT epoch FROM vaults`, and 0 if there is no row.
vault_epoch : Option VaultRow → ℕ
vault_epoch none = 0
vault_epoch (some r) = r.epoch

module _ (env : Env) (now : ℕ) where
  device_info : DeviceRow → DeviceInfo
  device_info r = record {
    name = r.name;
    ed25519_pub_b64 = env.b64_encode r.ed25519_pub;
    x25519_pub_b64 = env.b64_encode r.x25519_pub;
    approved = r.approved;
    revoked = r.revoked;
  }

  unfoldable pub devices : Text → Text → Text → ℕ → Handler DevicesResp
  unfolding device_info
  devices vault_b64 device sig ts = do
    (vault, key) ← verify env now (signed_query "devices" vault_b64 device sig ts)
    allowed ← query (λ db. can_sync db vault key)
    guard allowed forbidden
    rows ← query (λ db. rows_where (λ r. text_eq r.vault_id vault) db.devices)
    pure (record { devices = map device_info rows })

  unfoldable pub wrapped : Text → Text → Text → ℕ → Handler WrappedResp
  unfolding vault_epoch
  wrapped vault_b64 device sig ts = do
    (vault, key) ← verify env now (signed_query "wrapped" vault_b64 device sig ts)
    found ← query (λ db. device_row db vault key)
    row ← or_raise found not_found
    guard (not row.revoked) forbidden
    epoch ← query (λ db. vault_epoch (first_row (is_vault vault) db.vaults))
    pure (record {
      approved = row.approved;
      wrapped_key_b64 = Option.map env.b64_encode row.wrapped_key;
      epoch = epoch;
    })
