-- ===== src/Record/Values.antt =====
-- `serde_json::Value`, the type of a field's value. The payloads of this program hold no other
-- numbers than ports, so a number is a natural number.
use sshvault.Prelude.{◌≡◌, refl, Bool, true, false, ℕ}
use sshvault.Prelude.Order.{Text}
use native.Mathlib.Decide.{ℕ_discrete}

mutual
  pub data Json : Type 0 where
    null : Json
    bool : Bool → Json
    number : ℕ → Json
    string : Text → Json
    array : Items → Json
    object : Members → Json

  pub data Items : Type 0 where
    nil : Items
    cons : Json → Items → Items

  pub data Members : Type 0 where
    end : Members
    member : Text → Json → Members → Members

Json-discrete : Discrete Json
Json-discrete = hlevel ℕ_discrete

abbrev test : {a b : Json} → Dec (a ≡ b) → Bool
test (yes _) = true
test (no _) = false

-- `a == b` on values
unfoldable pub json_eq : Json → Json → Bool
unfolding Json-discrete
json_eq a b = test (Json-discrete a b)

pub json_eq_refl : (a : Json) → json_eq a a ≡ true
unfolding json_eq
json_eq_refl a = elim (Json-discrete a a) as (λ d. test d ≡ true) [
  | yes _ ↦ refl
  | no n ↦ absurd (n refl)
]

pub eq_of_json_eq : (a b : Json) → json_eq a b ≡ true → a ≡ b
unfolding json_eq
eq_of_json_eq a b = elim (Json-discrete a b) as (λ d. test d ≡ true → a ≡ b) [
  | yes p ↦ λ _. p
  | no _ ↦ λ h. cc
]
