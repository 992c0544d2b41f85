-- ===== src/Vault/Keys.antt =====
-- The key lists of the default share, and `set_vault_key` and `rotate` of src/vault.rs. The keyring
-- file is written with the handle's keyring, which is left out.
use sshvault.Prelude.{ℕ, ◌+◌, ◌%◌, none, [], ◌∷◌}
use sshvault.Prelude.Order.{Text}
use sshvault.Record.{nil_uuid}
use sshvault.Crypto.{Primitives, ok, err, vault_key_at_epoch}
use sshvault.Vault.Fail.{Result, done, fail, crypto, corrupt}
use sshvault.Vault.Keyring.{
  share_epoch, share_key_list, split_key_list, set_share_keys, push_share_key, absorb_share_key,
}
use sshvault.Vault.Store.{Vault, Disk, raw_entries}

unfoldable pub epoch : Vault → ℕ
unfolding share_epoch
epoch v = share_epoch v.keyring nil_uuid

unfoldable pub vault_key_list : Vault → Text
unfolding share_key_list
vault_key_list v = share_key_list v.keyring nil_uuid

-- An empty log takes another key list.
unfoldable pub set_vault_key : Text → Vault → Disk → Result Vault
unfolding raw_entries split_key_list set_share_keys
set_vault_key list v d = elim (raw_entries d) [
  | fail e ↦ fail e
  | done (_ ∷ _) ↦ fail corrupt
  | done [] ↦ elim (split_key_list list) [
    | fail e ↦ fail e
    | done keys ↦
        let kr = set_share_keys nil_uuid keys v.keyring in
        done (record v { keyring = record kr { vault_keys = []; vault_key = none }; state = [] })
  ]
]

-- What `absorb_share_key` does to the handle
unfoldable pub absorb_key_list : ℕ → Text → Vault → Result Vault
unfolding absorb_share_key
absorb_key_list share list v = elim (absorb_share_key share list v.keyring) [
  | fail e ↦ fail e
  | done kr ↦ done (record v { keyring = kr })
]

unfoldable pub absorb_vault_key_list : Text → Vault → Result Vault
unfolding absorb_key_list
absorb_vault_key_list list v = absorb_key_list nil_uuid list v

-- The next epoch's key comes from the phrase; `epoch() + 1` wraps.
unfoldable pub rotate : Primitives → Text → Vault → Result (ℕ × Vault)
unfolding epoch vault_key_at_epoch push_share_key
rotate p phrase v =
    let next = (epoch v + 1) % 4294967296 in
    elim (vault_key_at_epoch p phrase next) [
      | err _ ↦ fail crypto
      | ok key ↦ done (next, record v { keyring = push_share_key nil_uuid key v.keyring })
    ]
