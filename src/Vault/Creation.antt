-- ===== src/Vault/Creation.antt =====
-- `create_with_keys`, `create` and `derive_kek` of src/vault.rs. The keyring file is written with the
-- handle's keyring, which is left out, as is the cached key.
use sshvault.Prelude.{Bool, true, false, Option, none, some, [], ◌∷◌}
use sshvault.Prelude.Order.{Text}
use sshvault.Record.{Uuid, nil_uuid}
use sshvault.Crypto.{Primitives, ok, err, argon2_m_kib, argon2_t, argon2_p}
use sshvault.Vault.Fail.{Result, done, fail, already_exists, crypto, corrupt}
use sshvault.Vault.Store.{Vault, Disk, Meta}

-- The secret halves of a device's two key pairs.
pub record DeviceKeys : Type 0 where
  pub x25519 : Text
  pub ed25519 : Text

-- What `create_with_keys` draws at random.
pub record Drawn : Type 0 where
  pub salt : Text
  pub device_id : Uuid

module _ (b64_encode : Text → Text) (b64_decode : Text → Option Text) (p : Primitives)
    (verifying_key : Text → Text) where
  unfoldable pub derive_kek : Meta → Text → Result Text
  unfolding sshvault.Crypto.derive_kek
  derive_kek meta passphrase = elim (b64_decode meta.kdf.salt_b64) [
    | none ↦ fail corrupt
    | some salt ↦
        elim (sshvault.Crypto.derive_kek p passphrase salt meta.kdf.m_kib meta.kdf.t meta.kdf.p) [
          | err _ ↦ fail crypto
          | ok key ↦ done key
        ]
  ]

  unfoldable pub fresh_meta : Text → Uuid → Text → DeviceKeys → Drawn → Meta
  fresh_meta device_name vault_id recovery_pub device drawn = record {
    vault_id = vault_id;
    device_id = drawn.device_id;
    device_name = device_name;
    kdf = record {
      salt_b64 = b64_encode drawn.salt;
      m_kib = argon2_m_kib;
      t = argon2_t;
      p = argon2_p;
    };
    x25519_pub_b64 = b64_encode (p.public device.x25519);
    ed25519_pub_b64 = b64_encode (verifying_key device.ed25519);
    recovery_pub_b64 = b64_encode recovery_pub;
    lamport = 0;
    relay_url = none;
    sync_cursor = 0;
  }

  unfoldable pub fresh_vault : Text → DeviceKeys → Meta → Vault
  fresh_vault vault_key device meta = record {
    meta = meta;
    keyring = record {
      shares = record { id = nil_uuid; keys = vault_key ∷ [] } ∷ [];
      vault_keys = [];
      vault_key = none;
      x25519_secret = device.x25519;
      ed25519_secret = device.ed25519;
    };
    state = [];
  }

  -- Where a file meta.json is found, whether it parses or not, nothing is done; a key that cannot be
  -- derived leaves no file.
  unfoldable pub create_with_keys :
      Bool → Text → Text → Uuid → Text → Text → DeviceKeys → Drawn → Disk → Result Vault × Disk
  unfolding derive_kek fresh_meta fresh_vault
  create_with_keys found device_name passphrase vault_id vault_key recovery_pub device drawn d =
      elim found [
        | true ↦ (fail already_exists, d)
        | false ↦
            let meta = fresh_meta device_name vault_id recovery_pub device drawn in
            elim (derive_kek meta passphrase) [
              | fail e ↦ (fail e, d)
              | done _ ↦ (
                done (fresh_vault vault_key device meta),
                record d { meta = some meta; log = [] },
              )
            ]
      ]
