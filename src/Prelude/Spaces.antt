-- ===== src/Prelude/Spaces.antt =====
-- White space and plain ASCII: a plain character is no part of a character of white space.
use Prim.Native.Nat.{ℕ, zero, suc, ◌-◌, ◌≤◌}
use mathlib.Core.Path.{◌≡◌, refl, ap, ap₂, sym, ◌∙◌}
use mathlib.Core.Logic.{inl, inr}
use mathlib.Core.Bool.{Bool, true, false, ◌&&◌, ◌||◌, not}
use mathlib.Core.List.{List, [], ◌∷◌, ◌++◌}
use native.Mathlib.Omega.{arith}
use sshvault.Prelude.Tests.{leb, ◌==◌, Bool-cases, ==_iff}
use sshvault.Prelude.Lists.{length, All}
use sshvault.Prelude.Order.{Text}
use sshvault.Prelude.Texts.{
  is_empty, starts_with, split, cons_first, spaces, match_length, has_space, trim_start, trim_end,
}

-- A visible ASCII character.
abbrev pub plain : ℕ → Bool
plain c = leb 33 c && leb c 127

-- No byte is a plain character.
abbrev foreign : Text → Bool
foreign [] = true
foreign (c ∷ s) = not (plain c) && foreign s

abbrev all_foreign : List Text → Bool
all_foreign [] = true
all_foreign (p ∷ ps) = not (is_empty p) && foreign p && all_foreign ps

starts_with-append :
    (p s : Text) (x : ℕ) (b : Text)
    → foreign p ≡ true
    → plain x ≡ true
    → starts_with p (s ++ (x ∷ b)) ≡ starts_with p s
unfolding starts_with
starts_with-append [] s x b h k = refl
starts_with-append (q ∷ p) [] x b h k = ground arith
starts_with-append (q ∷ p) (c ∷ s) x b h k = ground (arith, starts_with-append p s x b)

match_length-append :
    (ps : List Text) (s : Text) (x : ℕ) (b : Text)
    → all_foreign ps ≡ true
    → plain x ≡ true
    → match_length ps (s ++ (x ∷ b)) ≡ match_length ps s
unfolding match_length
match_length-append [] s x b h k = refl
match_length-append (p ∷ ps) s x b h k =
    ground (arith, starts_with-append p s x b, match_length-append ps s x b)

match_length-plain :
    (ps : List Text) (x : ℕ) (b : Text)
    → all_foreign ps ≡ true
    → plain x ≡ true
    → match_length ps (x ∷ b) ≡ 0
unfolding match_length starts_with
match_length-plain [] x b h k = refl
match_length-plain ([] ∷ ps) x b h k = absurd (ground arith)
match_length-plain ((q ∷ p) ∷ ps) x b h k = ground (arith, match_length-plain ps x b)

starts_with-length : (p s : Text) → starts_with p s ≡ true → length p ≤ length s
unfolding starts_with
starts_with-length [] s h = omega arith
starts_with-length (q ∷ p) [] h = absurd (ground arith)
starts_with-length (q ∷ p) (c ∷ s) h = ground (arith, starts_with-length p s)

match_length_bound : (ps : List Text) (s : Text) → match_length ps s ≤ length s
unfolding match_length
match_length_bound [] s = omega arith
match_length_bound (p ∷ ps) s = ground (arith, starts_with-length p s, match_length_bound ps s)

pub has_space_empty : has_space [] ≡ false
unfolding has_space
has_space_empty = refl

pub has_space-plain : (x : ℕ) (b : Text) → plain x ≡ true → has_space (x ∷ b) ≡ has_space b
unfolding has_space
has_space-plain x b k = rw (match_length-plain spaces x b refl k) refl

or_assoc : (a b c : Bool) → (a || (b || c)) ≡ ((a || b) || c)
or_assoc true b c = refl
or_assoc false b c = refl

pub has_space-append :
    (a : Text) (x : ℕ) (b : Text)
    → plain x ≡ true
    → has_space (a ++ (x ∷ b)) ≡ (has_space a || has_space b)
unfolding has_space
has_space-append [] x b k = has_space-plain x b k
has_space-append (c ∷ a) x b k =
    rw (match_length-append spaces (c ∷ a) x b refl k, has_space-append a x b k)
      (or_assoc (not (match_length spaces (c ∷ a) == 0)) (has_space a) (has_space b))

pred_bound : (n : ℕ) (a : Text) → n ≤ suc (length a) → (n == 0) ≡ false → n - 1 ≤ length a
pred_bound n a h e = ground arith

-- Nothing of what stands before a plain character is lost at the end.
trim_start_stops :
    (k : ℕ) (a : Text) (x : ℕ)
    → plain x ≡ true
    → k ≤ length a
    → is_empty (trim_start k (a ++ (x ∷ []))) ≡ false
unfolding trim_start
trim_start_stops zero [] x p h = rw (match_length-plain spaces x [] refl p) refl
trim_start_stops (suc k) [] x p h = absurd (omega (arith, h))
trim_start_stops (suc k) (c ∷ a) x p h = trim_start_stops k a x p (omega (arith, h))
trim_start_stops zero (c ∷ a) x p h =
    let n = match_length spaces (c ∷ a) in
    rw (match_length-append spaces (c ∷ a) x [] refl p) (elim (Bool-cases (n == 0)) [
      | inl e ↦ rw e refl
      | inr e ↦
          rw e
            (trim_start_stops (n - 1) a x p (pred_bound n a (match_length_bound spaces (c ∷ a)) e))
    ])

pub trim_end-append : (a : Text) (x : ℕ) → plain x ≡ true → trim_end (a ++ (x ∷ [])) ≡ a ++ (x ∷ [])
unfolding trim_end
trim_end-append [] x p = rw (trim_start_stops 0 [] x p (omega arith)) refl
trim_end-append (c ∷ a) x p =
    rw (trim_start_stops 0 (c ∷ a) x p (omega arith)) (ap (λ r. c ∷ r) (trim_end-append a x p))

pub trim_start-plain : (x : ℕ) (b : Text) → plain x ≡ true → trim_start 0 (x ∷ b) ≡ x ∷ b
unfolding trim_start
trim_start-plain x b k = rw (match_length-plain spaces x b refl k) refl

-- The pieces with the separator between them.
abbrev pub join_by : ℕ → List Text → Text
join_by sep [] = []
join_by sep (p ∷ []) = p
join_by sep (p ∷ q ∷ ps) = p ++ (sep ∷ join_by sep (q ∷ ps))

join_by-cons_first :
    (sep c : ℕ) (ps : List Text) → join_by sep (cons_first c ps) ≡ c ∷ join_by sep ps
join_by-cons_first sep c [] = refl
join_by-cons_first sep c (p ∷ []) = refl
join_by-cons_first sep c (p ∷ q ∷ ps) = refl

cons_first_cons :
    (c : ℕ) (ps : List Text) → (p : Text) × (qs : List Text) × (cons_first c ps ≡ p ∷ qs)
cons_first_cons c [] = (c ∷ [], [], refl)
cons_first_cons c (p ∷ ps) = (c ∷ p, ps, refl)

-- There is always a first piece.
pub split_cons : (sep : ℕ) (s : Text) → (p : Text) × (ps : List Text) × (split sep s ≡ p ∷ ps)
unfolding split
split_cons sep [] = ([], [], refl)
split_cons sep (c ∷ s) = elim (Bool-cases (c == sep)) [
  | inl e ↦ ([], split sep s, rw (split, e) refl)
  | inr e ↦ let (p, ps, q) = cons_first_cons c (split sep s) in (p, ps, rw (split, e) q)
]

join_by-nil :
    (sep : ℕ) (s : Text) → join_by sep ([] ∷ split sep s) ≡ sep ∷ join_by sep (split sep s)
join_by-nil sep s = let (p, ps, e) = split_cons sep s in rw e refl

-- A text is its pieces.
pub join_by-split : (sep : ℕ) (s : Text) → join_by sep (split sep s) ≡ s
unfolding split
join_by-split sep [] = refl
join_by-split sep (c ∷ s) = elim (Bool-cases (c == sep)) [
  | inl e ↦
      rw (split, e)
        (join_by-nil sep s ∙ ap₂ (λ a b. a ∷ b) (sym ((==_iff c sep).0 e)) (join_by-split sep s))
  | inr e ↦
      rw (split, e) (join_by-cons_first sep c (split sep s) ∙ ap (λ r. c ∷ r) (join_by-split sep s))
]

has_space-join_by :
    (sep : ℕ) (ps : List Text)
    → plain sep ≡ true
    → All (λ p. has_space p ≡ false) ps
    → has_space (join_by sep ps) ≡ false
unfolding has_space
has_space-join_by sep [] k h = refl
has_space-join_by sep (p ∷ []) k h = h.0
has_space-join_by sep (p ∷ q ∷ ps) k h =
    has_space-append p sep (join_by sep (q ∷ ps)) k
    ∙ rw (h.0, has_space-join_by sep (q ∷ ps) k h.1) refl

-- A text is free of white space if the pieces that a plain separator cuts it into are.
pub has_space-split :
    (sep : ℕ) (s : Text)
    → plain sep ≡ true
    → All (λ p. has_space p ≡ false) (split sep s)
    → has_space s ≡ false
has_space-split sep s k h =
    sym (ap has_space (join_by-split sep s)) ∙ has_space-join_by sep (split sep s) k h
