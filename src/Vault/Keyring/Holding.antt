-- ===== src/Vault/Keyring/Holding.antt =====
-- Absorbing a key list gives the share, and takes none away.
use sshvault.Prelude.{◌≡◌, true, List, inl, inr, Bool-cases, arith, ◌==◌}
use sshvault.Prelude.Order.{Text}
use sshvault.Record.{Uuid}
use sshvault.Vault.Fail.{done, Result-cases, ◌>>=◌}
use sshvault.Vault.Keyring.{
  Keyring, has_share, share, absorb_share_key, set_share_keys, split_key_list,
}
use sshvault.Vault.Keyring.Growth.{find_share-change_keys, find_share-change_other}

-- Every share that the one keyring has the other has.
abbrev pub KeepsShares : Keyring → Keyring → Type 0
KeepsShares kr kr' = (j : Uuid) → has_share kr j ≡ true → has_share kr' j ≡ true

set_holds :
    (id : Uuid) (ks : List Text) (kr : Keyring) (j : Uuid)
    → (has_share (set_share_keys id ks kr) id ≡ true)
      × (has_share kr j ≡ true → has_share (set_share_keys id ks kr) j ≡ true)
unfolding has_share share set_share_keys
set_holds id ks kr j = elim (Bool-cases (j == id)) [
  | inl e ↦ (
    ground (arith, find_share-change_keys (λ _. ks) ks id kr.shares),
    λ h. ground (arith, find_share-change_keys (λ _. ks) ks id kr.shares),
  )
  | inr e ↦ (
    ground (arith, find_share-change_keys (λ _. ks) ks id kr.shares),
    λ h. ground (arith, find_share-change_other (λ _. ks) ks id j kr.shares),
  )
]

pub absorb_share_key-holds :
    (id : Uuid) (list : Text) (kr kr' : Keyring) (j : Uuid)
    → absorb_share_key id list kr ≡ done kr'
    → (has_share kr' id ≡ true) × (has_share kr j ≡ true → has_share kr' j ≡ true)
unfolding absorb_share_key has_share share ◌>>=◌
absorb_share_key-holds id list kr kr' j h = elim (Result-cases (split_key_list list)) [
  | inl (ks, e) ↦
      (ground (arith, (set_holds id ks kr j).0), λ k. ground (arith, (set_holds id ks kr j).1))
  | inr (v, e) ↦ absurd (ground arith)
]
