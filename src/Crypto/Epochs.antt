-- ===== src/Crypto/Epochs.antt =====
-- Each epoch's vault key has an info text of its own.
use sshvault.Prelude.{
  ℕ, ◌<◌, ◌≡◌, refl, ap, sym, ◌∙◌, inl, inr, false, [], ◌∷◌, ◌++◌, arith, drop, ◌==◌, ==_iff,
  Bool-cases,
}
use sshvault.Prelude.Order.{Text}
use sshvault.Prelude.Texts.{bytes}
use sshvault.Prelude.Digits.{digits, read_from, read-digits}
use sshvault.Crypto.{vault_key_info}

info_zero : vault_key_info 0 ≡ bytes "sshvault/v1/vault-key"
unfolding vault_key_info
info_zero = refl

info_later :
    (epoch : ℕ)
    → (epoch == 0) ≡ false
    → vault_key_info epoch ≡ bytes "sshvault/v1/vault-key/" ++ digits 10 epoch
unfolding vault_key_info
info_later epoch e = rw (vault_key_info, e) refl

apart : (s : Text) → bytes "sshvault/v1/vault-key" ≡ bytes "sshvault/v1/vault-key/" ++ s → ⊥
apart s h = let short : [] ≡ 47 ∷ s = ap (drop 21) h in ground arith

-- Two epochs below 2^32 with the same info text, which is all that tells their vault keys apart,
-- are the same epoch.
pub vault_key_info-injective :
    (a b : ℕ) → a < 4294967296 → b < 4294967296 → vault_key_info a ≡ vault_key_info b → a ≡ b
vault_key_info-injective a b ha hb h = elim (Bool-cases (a == 0)) [
  | inl e ↦ elim (Bool-cases (b == 0)) [
    | inl f ↦ (==_iff a 0).0 e ∙ sym ((==_iff b 0).0 f)
    | inr f ↦ absurd (
        apart (digits 10 b)
          (sym info_zero ∙ sym (ap vault_key_info ((==_iff a 0).0 e)) ∙ h ∙ info_later b f))
  ]
  | inr e ↦ elim (Bool-cases (b == 0)) [
    | inl f ↦ absurd (
        apart (digits 10 a)
          (sym info_zero ∙ sym (ap vault_key_info ((==_iff b 0).0 f)) ∙ sym h ∙ info_later a e))
    | inr f ↦
        sym (read-digits 10 a (omega (arith, ha)))
        ∙ ap (λ s. read_from 0 (drop 22 s)) (sym (info_later a e) ∙ h ∙ info_later b f)
        ∙ read-digits 10 b (omega (arith, hb))
  ]
]
