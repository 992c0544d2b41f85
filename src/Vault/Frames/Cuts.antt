-- ===== src/Vault/Frames/Cuts.antt =====
-- Lists cut at a number.
use sshvault.Prelude.{
  ℕ, suc, zero, ◌+◌, ◌<◌, ◌≤◌, ◌≡◌, refl, ap, List, [], ◌∷◌, ◌++◌, length, take, drop,
  length-append, take-append, drop-append, arith, All, sym,
}
use mathlib.Core.List.{append_assoc}
use sshvault.Prelude.Order.{Text}

pub take_twice {ℓ} :
    {A : Type ℓ} (xs ys zs : List A)
    → drop (length xs) (take (length xs + length ys) (xs ++ (ys ++ zs))) ≡ ys
take_twice xs ys zs =
    rw (sym (append_assoc xs ys zs), sym (length-append xs ys), take-append (xs ++ ys) zs)
      (drop-append xs ys)

pub drop_twice {ℓ} :
    {A : Type ℓ} (xs ys zs : List A) → drop (length xs + length ys) (xs ++ (ys ++ zs)) ≡ zs
drop_twice xs ys zs =
    rw (sym (append_assoc xs ys zs), sym (length-append xs ys)) (drop-append (xs ++ ys) zs)

pub take-drop {ℓ} : {A : Type ℓ} (n : ℕ) (xs : List A) → take n xs ++ drop n xs ≡ xs
take-drop zero xs = refl
take-drop (suc n) [] = refl
take-drop (suc n) (x ∷ xs) = ap (λ r. x ∷ r) (take-drop n xs)

pub length-take {ℓ} : {A : Type ℓ} (n : ℕ) (xs : List A) → n ≤ length xs → length (take n xs) ≡ n
length-take zero xs h = refl
length-take (suc n) [] h = absurd (omega (arith, h))
length-take (suc n) (x ∷ xs) h = omega (arith, length-take n xs (omega (arith, h)))

take-take {ℓ} : {A : Type ℓ} (n m : ℕ) (xs : List A) → n ≤ m → take n (take m xs) ≡ take n xs
take-take zero m xs h = refl
take-take (suc n) zero xs h = absurd (omega (arith, h))
take-take (suc n) (suc m) [] h = refl
take-take (suc n) (suc m) (x ∷ xs) h = ap (λ r. x ∷ r) (take-take n m xs (omega (arith, h)))

pub take-drop-drop {ℓ} :
    {A : Type ℓ} (n m : ℕ) (xs : List A)
    → n ≤ m
    → (take n xs ++ drop n (take m xs)) ++ drop m xs ≡ xs
take-drop-drop n m xs h = rw (sym (take-take n m xs h), take-drop n (take m xs)) (take-drop m xs)

abbrev pub IsByte : ℕ → Type 0
IsByte n = n < 256

pub All-drop : (n : ℕ) (xs : Text) → All IsByte xs → All IsByte (drop n xs)
All-drop zero xs h = h
All-drop (suc n) [] h = h
All-drop (suc n) (x ∷ xs) h = All-drop n xs h.1
