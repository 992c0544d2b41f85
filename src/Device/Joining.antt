-- ===== src/Device/Joining.antt =====
-- `enroll_and_wait`, `poll_wrapped` and `recover` of src/device.rs, and `enroll` of src/sync.rs: a
-- device that joins a vault. The request's JSON and the relay's answers are parameters.
use sshvault.Prelude.{
  ℕ, Bool, true, false, Option, none, some, List, [], ◌∷◌, zero, suc, if◌then◌else◌,
}
use sshvault.Prelude.Order.{Text}
use sshvault.Record.{Uuid}
use sshvault.Crypto.{ok, err, unwrap_vault_key}
use sshvault.Proto.{EnrollReq, EnrollResp, WrappedResp, Signed}
use sshvault.Vault.Fail.{Result, done, fail, crypto}
use sshvault.Vault.Store.{Vault, Disk, set_relay_url}
use sshvault.Vault.Keys.{set_vault_key}
use sshvault.Vault.Creation.{DeviceKeys, Drawn, create_with_keys}
use sshvault.Sync.{http, bad, Synced, synced, broken, Answer, parse, Client, sign}
use sshvault.Device.{sync_error, vault_failed, Joined, joined, stopped}

-- The recovery key of a vault that another device created is not known.
abbrev pub zeros : ℕ → Text
zeros zero = []
zeros (suc n) = 0 ∷ zeros n

-- What comes of one poll: the key, once approved.
unfoldable pub poll_wrapped : Answer WrappedResp → Synced (Option Text)
unfolding parse
poll_wrapped a = elim (parse a) [
  | broken e ↦ broken e
  | synced resp ↦ synced (if resp.approved then resp.wrapped_key_b64 else none)
]

unfoldable pub with_relay : Text → Result Vault × Disk → Result Vault × Disk
unfolding set_relay_url
with_relay url (fail e, d) = (fail e, d)
with_relay url (done v, d) = let (v', d') = set_relay_url url v d in (done v', d')

module _ (client : Client) where
  unfoldable pub install : Text → Vault → Disk → Joined Vault
  unfolding unwrap_vault_key set_vault_key
  install wrapped_b64 v d = elim (client.b64_decode wrapped_b64) [
    | none ↦ stopped (sync_error bad)
    | some wrapped ↦
        elim (unwrap_vault_key client.primitives v.keyring.x25519_secret wrapped
          (client.verifying_key v.keyring.ed25519_secret)) [
            | err _ ↦ stopped (vault_failed crypto)
            | ok list ↦ elim (set_vault_key list v d) [
              | fail e ↦ stopped (vault_failed e)
              | done v' ↦ joined v'
            ]
          ]
  ]

  -- The loop of polls; when the answers are spent the relay is not reached.
  unfoldable pub wait : List (Answer WrappedResp) → Vault → Disk → Joined Vault
  unfolding poll_wrapped install
  wait [] v d = stopped (sync_error http)
  wait (a ∷ later) v d = elim (poll_wrapped a) [
    | broken e ↦ stopped (sync_error e)
    | synced none ↦ wait later v d
    | synced (some wrapped_b64) ↦ install wrapped_b64 v d
  ]

  -- `enroll`: whether the device is approved already. The request's JSON and the time are given.
  unfoldable pub enroll :
      (EnrollReq → Text) → ℕ → (Signed → Answer EnrollResp) → Vault → Synced Bool
  unfolding sign parse
  enroll to_json ts relay v =
      elim (parse (
        relay (
          sign client ts
            (to_json (record {
              device_name = v.meta.device_name;
              ed25519_pub_b64 = client.b64_encode (client.verifying_key v.keyring.ed25519_secret);
              x25519_pub_b64 = v.meta.x25519_pub_b64;
              recovery_pub_b64 = v.meta.recovery_pub_b64;
            }))
            v))) [ broken e ↦ broken e | synced resp ↦ synced resp.approved ]

  -- The vault that stands before the relay is asked; whether a meta.json was found is given.
  unfoldable pub provision :
      Bool
      → Text
      → Text
      → Uuid
      → Text
      → Text
      → DeviceKeys
      → Drawn
      → Text
      → Disk
      → Result Vault × Disk
  unfolding create_with_keys with_relay
  provision found device_name passphrase vault_id vault_key recovery_pub device drawn url d =
      with_relay url (
        create_with_keys client.b64_encode client.b64_decode client.primitives client.verifying_key
          found device_name passphrase vault_id vault_key recovery_pub device drawn d)

  -- What the relay answers to a device that joins.
  unfoldable pub after_enroll :
      Synced Bool → List (Answer WrappedResp) → Vault → Disk → Joined Vault × Disk
  unfolding wait
  after_enroll (broken e) polls v d = (stopped (sync_error e), d)
  after_enroll (synced true) polls v d = (joined v, d)
  after_enroll (synced false) polls v d = (wait polls v d, d)

  unfoldable pub after_provision :
      (EnrollReq → Text)
      → ℕ
      → (Signed → Answer EnrollResp)
      → List (Answer WrappedResp)
      → Result Vault × Disk
      → Joined Vault × Disk
  unfolding enroll after_enroll
  after_provision to_json ts relay polls (fail e, d) = (stopped (vault_failed e), d)
  after_provision to_json ts relay polls (done v, d) =
      after_enroll (enroll to_json ts relay v) polls v d

  unfoldable pub enroll_and_wait :
      (EnrollReq → Text)
      → ℕ
      → (Signed → Answer EnrollResp)
      → List (Answer WrappedResp)
      → Bool
      → Text
      → Text
      → Uuid
      → Text
      → Text
      → DeviceKeys
      → Drawn
      → Disk
      → Joined Vault × Disk
  unfolding provision after_provision
  enroll_and_wait to_json ts relay polls found device_name passphrase vault_id url provisional
        device drawn d =
      after_provision to_json ts relay polls
        (provision found device_name passphrase vault_id provisional (zeros 32) device drawn url d)
