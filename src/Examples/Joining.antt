-- ===== src/Examples/Joining.antt =====
-- A device whose first poll brings nothing, and whose second a list of one key.
use sshvault.Prelude.{◌≡◌, refl, true, false, some, none, [], ◌∷◌, ◌++◌}
use sshvault.Prelude.Order.{Text}
use sshvault.Crypto.{wrap_vault_key}
use sshvault.Proto.{WrappedResp}
use sshvault.Vault.Keyring.{share}
use sshvault.Vault.Store.{Vault, Disk}
use sshvault.Vault.Creation.{DeviceKeys, Drawn}
use sshvault.Sync.{Answer, answered}
use sshvault.Device.{joined}
use sshvault.Device.Joining.{enroll_and_wait}
use sshvault.Device.Approval.{enroll_and_wait-approved}
use sshvault.Examples.Syncing.{sixteen, documented, nonce, client}

abbrev disk : Disk
disk = record { meta = none; log = []; snapshot = none }

abbrev device : DeviceKeys
device = record { x25519 = 1 ∷ []; ed25519 = 4 ∷ [] }

abbrev drawn : Drawn
drawn = record { salt = 2 ∷ []; device_id = 3 }

abbrev vault_key : Text
vault_key = sixteen 1 ++ sixteen 1

abbrev pending : Answer WrappedResp
pending = answered (record { approved = false; wrapped_key_b64 = none; epoch = 0 })

abbrev approved : Answer WrappedResp
approved = answered (record {
  approved = true;
  wrapped_key_b64 = some (
      wrap_vault_key client.primitives (2 ∷ []) nonce vault_key (client.primitives.public (1 ∷ []))
        (4 ∷ []));
  epoch = 1;
})

enroll_and_wait-approved_example :
    (v : Vault) × (d' : Disk) × (enroll_and_wait client
        (λ req. req.device_name)
        7
        (λ s. answered (record { approved = false; head = 0 }))
        (pending ∷ approved ∷ [])
        false
        (5 ∷ [])
        (6 ∷ [])
        9
        (8 ∷ [])
        (sixteen 0 ++ sixteen 0)
        device
        drawn
        disk
      ≡ (joined v, d'))
    × (share v.keyring 0 ≡ some (record { id = 0; keys = vault_key ∷ [] }))
    × (v.meta.vault_id ≡ 9)
unfolding sshvault.Device.Joining.poll_wrapped sshvault.Vault.Keyring.split_key_list
enroll_and_wait-approved_example =
    enroll_and_wait-approved client documented (λ x. refl) (λ req. req.device_name) 7
      (λ s. answered (record { approved = false; head = 0 })) 0 1 (pending ∷ []) [] (5 ∷ [])
      (6 ∷ []) (8 ∷ []) (sixteen 0 ++ sixteen 0) (2 ∷ []) (2 ∷ []) nonce vault_key 9 device drawn
      (vault_key ∷ []) disk refl (λ s. refl) (refl, tt) refl refl
