-- ===== src/Prelude/Order.antt =====
-- The trait `Ord` with the laws that it asks of `cmp`; numbers, and byte strings in the
-- lexicographic order of `String` and `[u8]`.
use Prim.Native.Nat.{ℕ, compare, Ordering}
use Prim.Native.Nat.Ordering.{lt, eq, gt}
use mathlib.Core.Path.{◌≡◌, refl}
use mathlib.Core.Logic.{◌↔◌, ◌⊎◌, inl, inr}
use mathlib.Core.Bool.{Bool, true, false}
use mathlib.Core.List.{List, [], ◌∷◌}
use native.Mathlib.Omega.{arith}

pub record Ord {ℓ} (K : Type ℓ) : Type ℓ where
  pub cmp : K → K → Ordering
  -- transitivity
  pub cmp_trans : (x y z : K) → cmp x y ≡ lt → cmp y z ≡ lt → cmp x z ≡ lt
  -- the two directions of antisymmetry
  pub gt_of_swap : (x y : K) → cmp x y ≡ lt → cmp y x ≡ gt
  pub lt_of_swap : (x y : K) → cmp x y ≡ gt → cmp y x ≡ lt
  -- agreement with `==`
  pub eq_of_tie : (x y : K) → cmp x y ≡ eq → x ≡ y
  pub cmp_self : (x : K) → cmp x x ≡ eq

-- `a < b`
abbrev pub IsBelow {ℓ} : {K : Type ℓ} → Ord K → K → K → Type 0
IsBelow o a b = o.cmp a b ≡ lt

infix 40 ◌≺◌
abbrev pub ◌≺◌ {ℓ} : {K : Type ℓ} ⦃ord : Ord K⦄ → K → K → Type 0
◌≺◌ ⦃ord⦄ = IsBelow ord

pub Ordering-cases : (c : Ordering) → (c ≡ lt) ⊎ ((c ≡ gt) ⊎ (c ≡ eq))
Ordering-cases lt = inl refl
Ordering-cases eq = inr (inr refl)
Ordering-cases gt = inr (inl refl)

-- The test `a == b`.
abbrev pub is_eq : Ordering → Bool
is_eq eq = true
is_eq lt = false
is_eq gt = false

-- `Ordering::then`: how a derived `Ord` compares its fields in turn.
abbrev pub then_cmp : Ordering → Ordering → Ordering
then_cmp eq second = second
then_cmp lt second = lt
then_cmp gt second = gt

pub nat_refl : (a : ℕ) → compare a a ≡ eq
nat_refl a = ground arith

pub nat_eq : (a b : ℕ) → compare a b ≡ eq → a ≡ b
nat_eq a b h = ground arith

pub nat_lt : (a b : ℕ) → compare a b ≡ gt → compare b a ≡ lt
nat_lt a b h = ground arith

pub nat_gt : (a b : ℕ) → compare a b ≡ lt → compare b a ≡ gt
nat_gt a b h = ground arith

pub nat_trans : (a b c : ℕ) → compare a b ≡ lt → compare b c ≡ lt → compare a c ≡ lt
nat_trans a b c h k = ground arith

instance abbrev pub nat_ord : Ord ℕ
nat_ord = record {
  cmp = compare;
  cmp_self = nat_refl;
  eq_of_tie = nat_eq;
  lt_of_swap = nat_lt;
  gt_of_swap = nat_gt;
  cmp_trans = nat_trans;
}

-- A `String`, a `Vec<u8>` or a key, as its bytes.
abbrev pub Text : Type 0
Text = List ℕ

abbrev pub cmp_text : Text → Text → Ordering
cmp_text [] [] = eq
cmp_text [] (y ∷ ys) = lt
cmp_text (x ∷ xs) [] = gt
cmp_text (x ∷ xs) (y ∷ ys) = then_cmp (compare x y) (cmp_text xs ys)

pub text_refl : (a : Text) → cmp_text a a ≡ eq
text_refl [] = refl
text_refl (x ∷ xs) = ground (arith, text_refl xs)

pub text_eq_of : (a b : Text) → cmp_text a b ≡ eq → a ≡ b
text_eq_of [] [] h = refl
text_eq_of [] (y ∷ ys) h = cc
text_eq_of (x ∷ xs) [] h = cc
text_eq_of (x ∷ xs) (y ∷ ys) h = ground (arith, text_eq_of xs ys)

pub text_lt : (a b : Text) → cmp_text a b ≡ gt → cmp_text b a ≡ lt
text_lt [] [] h = cc
text_lt [] (y ∷ ys) h = cc
text_lt (x ∷ xs) [] h = refl
text_lt (x ∷ xs) (y ∷ ys) h = ground (arith, text_lt xs ys)

pub text_gt : (a b : Text) → cmp_text a b ≡ lt → cmp_text b a ≡ gt
text_gt [] [] h = cc
text_gt [] (y ∷ ys) h = refl
text_gt (x ∷ xs) [] h = cc
text_gt (x ∷ xs) (y ∷ ys) h = ground (arith, text_gt xs ys)

pub text_trans : (a b c : Text) → cmp_text a b ≡ lt → cmp_text b c ≡ lt → cmp_text a c ≡ lt
text_trans [] [] c h k = cc
text_trans [] (y ∷ ys) [] h k = cc
text_trans [] (y ∷ ys) (z ∷ zs) h k = refl
text_trans (x ∷ xs) [] c h k = cc
text_trans (x ∷ xs) (y ∷ ys) [] h k = cc
text_trans (x ∷ xs) (y ∷ ys) (z ∷ zs) h k = ground (arith, text_trans xs ys zs)

instance abbrev pub text_ord : Ord Text
text_ord = record {
  cmp = cmp_text;
  cmp_self = text_refl;
  eq_of_tie = text_eq_of;
  lt_of_swap = text_lt;
  gt_of_swap = text_gt;
  cmp_trans = text_trans;
}

abbrev pub text_eq : Text → Text → Bool
text_eq a b = is_eq (cmp_text a b)

pub text_eq_iff : (a b : Text) → (text_eq a b ≡ true) ↔ (a ≡ b)
text_eq_iff a b = (λ h. ground (arith, text_eq_of a b), λ h. ground (arith, text_refl a))
