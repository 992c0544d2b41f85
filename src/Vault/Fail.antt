-- ===== src/Vault/Fail.antt =====
-- `VaultError`, its texts left out, and results with it.
use sshvault.Prelude.{◌≡◌, refl, ◌⊎◌, inl, inr}

pub data VaultError : Type 0 where
  already_exists not_found crypto io corrupt duplicate no_such_record private_key_material
        invalid_field :
      VaultError

pub data Result {ℓ} (A : Type ℓ) : Type ℓ where
  done : A → Result A
  fail : VaultError → Result A

module _ {ℓ κ} {A : Type ℓ} {B : Type κ} where
  infixl 10 ◌>>=◌
  unfoldable pub ◌>>=◌ : Result A → (A → Result B) → Result B
  done a >>= f = f a
  fail e >>= f = fail e

pub Result-cases {ℓ} :
    {A : Type ℓ} (r : Result A) → ((a : A) × (r ≡ done a)) ⊎ ((e : VaultError) × (r ≡ fail e))
Result-cases (done a) = inl (a, refl)
Result-cases (fail e) = inr (e, refl)
