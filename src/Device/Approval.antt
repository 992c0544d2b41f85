-- ===== src/Device/Approval.antt =====
-- A device that joins gets the vault's keys once it is approved.
use sshvault.Prelude.{
  ◌≡◌, refl, ap, ◌∙◌, true, false, none, some, List, [], ◌∷◌, ◌++◌, ℕ, length, All,
}
use sshvault.Prelude.Order.{Text}
use sshvault.Record.{Uuid, nil_uuid}
use sshvault.Crypto.{
  Documented, ok, unwrap_vault_key, wrap_vault_key, argon2_m_kib, argon2_t, argon2_p,
}
use sshvault.Crypto.Boxes.{unwrap_vault_key-wrap_vault_key}
use sshvault.Proto.{EnrollReq, EnrollResp, WrappedResp, Signed}
use sshvault.Vault.Fail.{done}
use sshvault.Vault.Keyring.{ShareKeys, share, split_key_list, set_share_keys}
use sshvault.Vault.Store.{Vault, Disk, set_relay_url, raw_entries}
use sshvault.Vault.Keys.{set_vault_key}
use sshvault.Vault.Creation.{
  DeviceKeys, Drawn, create_with_keys, derive_kek, fresh_meta, fresh_vault,
}
use sshvault.Sync.{synced, Answer, answered, parse, Client}
use sshvault.Device.{joined}
use sshvault.Device.Joining.{
  poll_wrapped, install, wait, enroll, with_relay, provision, zeros, after_enroll, after_provision,
  enroll_and_wait,
}

-- A poll that tells of no key yet.
abbrev pub IsPending : Answer WrappedResp → Type 0
IsPending a = poll_wrapped a ≡ synced none

wait-pending :
    (client : Client) (pending polls : List (Answer WrappedResp)) (v : Vault) (d : Disk)
    → All IsPending pending
    → wait client (pending ++ polls) v d ≡ wait client polls v d
unfolding wait
wait-pending client [] polls v d h = refl
wait-pending client (a ∷ pending) polls v d h =
    rw (wait, h.0) (wait-pending client pending polls v d h.1)

abbrev with_keys : List Text → Vault → Vault
with_keys keys v =
    let kr = set_share_keys nil_uuid keys v.keyring in
    record v { keyring = record kr { vault_keys = []; vault_key = none }; state = [] }

set_vault_key-empty :
    (list : Text) (keys : List Text) (v : Vault) (d : Disk)
    → raw_entries d ≡ done []
    → split_key_list list ≡ done keys
    → set_vault_key list v d ≡ done (with_keys keys v)
unfolding set_vault_key
set_vault_key-empty list keys v d e s = rw (set_vault_key, e, s) refl

module _ (client : Client) (law : Documented client.primitives)
    (decodes : (x : Text) → client.b64_decode (client.b64_encode x) ≡ some x) where
  install-wrapped :
      (eph nonce list : Text) (keys : List Text) (v : Vault) (d : Disk)
      → length nonce ≡ 24
      → raw_entries d ≡ done []
      → split_key_list list ≡ done keys
      → install client
          (client.b64_encode (
            wrap_vault_key client.primitives eph nonce list
              (client.primitives.public v.keyring.x25519_secret)
              (client.verifying_key v.keyring.ed25519_secret)))
          v
          d
        ≡ joined (with_keys keys v)
  unfolding install
  install-wrapped eph nonce list keys v d n e s =
      rw
        (
          install,
          decodes (
              wrap_vault_key client.primitives eph nonce list
                (client.primitives.public v.keyring.x25519_secret)
                (client.verifying_key v.keyring.ed25519_secret)),
          unwrap_vault_key-wrap_vault_key client.primitives law v.keyring.x25519_secret eph nonce
              list (client.verifying_key v.keyring.ed25519_secret) n,
          set_vault_key-empty list keys v d e s,
        )
        refl

  -- The vault that a device creates, before and after the relay's address is written.
  abbrev no_url : Uuid → Text → Text → Text → DeviceKeys → Drawn → Vault
  no_url vault_id device_name recovery_pub key device drawn =
      fresh_vault client.b64_encode client.b64_decode client.primitives client.verifying_key key
        device
        (fresh_meta client.b64_encode client.b64_decode client.primitives client.verifying_key
          device_name vault_id recovery_pub device drawn)

  abbrev url_set : Uuid → Text → Text → Text → Text → DeviceKeys → Drawn → Vault
  url_set vault_id device_name recovery_pub key url device drawn =
      let v = no_url vault_id device_name recovery_pub key device drawn in
      record v { meta = record v.meta { relay_url = some url } }

  created :
      (device_name passphrase key recovery_pub kek : Text) (vault_id : Uuid) (device : DeviceKeys)
      (drawn : Drawn) (d : Disk)
      → client.primitives.hash_password passphrase drawn.salt argon2_m_kib argon2_t argon2_p
        ≡ some kek
      → create_with_keys client.b64_encode client.b64_decode client.primitives client.verifying_key
          false device_name passphrase vault_id key recovery_pub device drawn d
        ≡ (
          done (no_url vault_id device_name recovery_pub key device drawn),
          record d {
            meta = some (no_url vault_id device_name recovery_pub key device drawn).meta;
            log = [];
          },
        )
  unfolding create_with_keys derive_kek sshvault.Crypto.derive_kek fresh_meta fresh_vault
  created device_name passphrase key recovery_pub kek vault_id device drawn d k =
      rw (create_with_keys, derive_kek, decodes drawn.salt, sshvault.Crypto.derive_kek, k) refl

  made :
      (device_name passphrase url key recovery_pub kek : Text) (vault_id : Uuid)
      (device : DeviceKeys) (drawn : Drawn) (d : Disk)
      → client.primitives.hash_password passphrase drawn.salt argon2_m_kib argon2_t argon2_p
        ≡ some kek
      → provision client false device_name passphrase vault_id key recovery_pub device drawn url d
        ≡ (
          done (url_set vault_id device_name recovery_pub key url device drawn),
          record d {
            meta = some (url_set vault_id device_name recovery_pub key url device drawn).meta;
            log = [];
          },
        )
  unfolding provision with_relay set_relay_url sshvault.Vault.Store.absorb_disk_meta
      sshvault.Vault.Store.write_meta fresh_meta fresh_vault
  made device_name passphrase url key recovery_pub kek vault_id device drawn d k =
      ap (with_relay url)
        (created device_name passphrase key recovery_pub kek vault_id device drawn d k)

  not_approved :
      (to_json : EnrollReq → Text) (ts : ℕ) (relay : Signed → Answer EnrollResp) (head : ℕ)
      (v : Vault)
      → ((s : Signed) → relay s ≡ answered (record { approved = false; head = head }))
      → enroll client to_json ts relay v ≡ synced false
  unfolding enroll parse
  not_approved to_json ts relay head v h = rw (enroll, h) refl

  -- A device that has no vault yet, whose key can be derived, and that the relay does not approve at
  -- once, joins as soon as a poll brings a key list that was wrapped for it, however many polls
  -- brought none before: it then holds just the keys of that list for the default share.
  pub enroll_and_wait-approved :
      (to_json : EnrollReq → Text) (ts : ℕ) (relay : Signed → Answer EnrollResp) (head epoch : ℕ)
      (pending later : List (Answer WrappedResp))
      (device_name passphrase url provisional kek eph nonce list : Text) (vault_id : Uuid)
      (device : DeviceKeys) (drawn : Drawn) (keys : List Text) (d : Disk)
      → client.primitives.hash_password passphrase drawn.salt argon2_m_kib argon2_t argon2_p
        ≡ some kek
      → ((s : Signed) → relay s ≡ answered (record { approved = false; head = head }))
      → All IsPending pending
      → length nonce ≡ 24
      → split_key_list list ≡ done keys
      → (v : Vault) × (d' : Disk) × (enroll_and_wait client to_json ts relay
            (pending
              ++ (answered (record {
                approved = true;
                wrapped_key_b64 = some (
                    client.b64_encode (
                      wrap_vault_key client.primitives eph nonce list
                        (client.primitives.public device.x25519)
                        (client.verifying_key device.ed25519)));
                epoch = epoch;
              })
                  ∷ later))
            false
            device_name
            passphrase
            vault_id
            url
            provisional
            device
            drawn
            d
          ≡ (joined v, d'))
        × (share v.keyring nil_uuid ≡ some (record { id = nil_uuid; keys = keys }))
        × (v.meta.vault_id ≡ vault_id)
  unfolding enroll_and_wait after_provision after_enroll wait poll_wrapped parse fresh_vault
      fresh_meta raw_entries sshvault.Vault.Keyring.share sshvault.Vault.Keyring.set_share_keys
      sshvault.Vault.Frames.parse_from sshvault.Vault.Keyring.find_share
  enroll_and_wait-approved to_json ts relay head epoch pending later device_name passphrase url
        provisional kek eph nonce list vault_id device drawn keys d k h waits n s =
      let v = url_set vault_id device_name (zeros 32) provisional url device drawn in
      let d' : Disk = record d { meta = some v.meta; log = [] } in
      let approved : Answer WrappedResp = answered (record {
        approved = true;
        wrapped_key_b64 = some (
            client.b64_encode (
              wrap_vault_key client.primitives eph nonce list
                (client.primitives.public device.x25519) (client.verifying_key device.ed25519)));
        epoch = epoch;
      }) in
      let polls = pending ++ (approved ∷ later) in
      (
        with_keys keys v,
        d',
        ap (after_provision client to_json ts relay polls)
              (made device_name passphrase url provisional (zeros 32) kek vault_id device drawn d k)
            ∙ ap (λ r. after_enroll client r polls v d') (not_approved to_json ts relay head v h)
            ∙ ap (λ j. (j, d'))
                (wait-pending client pending (approved ∷ later) v d' waits
                  ∙ install-wrapped eph nonce list keys v d' n refl s),
        refl,
        refl,
      )
