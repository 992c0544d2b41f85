-- ===== src/Prelude/Digits.antt =====
-- Numbers as decimal digits.
use native.Mathlib.Nat.{pow-suc}
use native.Mathlib.Omega.{arith}
use Prim.Native.Nat.{ℕ, zero, suc, ◌+◌, ◌-◌, ◌*◌, ◌/◌, ◌%◌, ◌^◌, ◌≤◌, ◌<◌}
use mathlib.Core.Path.{◌≡◌, refl}
use mathlib.Core.Logic.{inl, inr}
use mathlib.Core.Bool.{◌&&◌}
use mathlib.Core.Option.{Option, none, some}
use mathlib.Core.List.{[], ◌∷◌, ◌++◌}
use sshvault.Prelude.Tests.{ltb, leb, ◌==◌, Bool-cases, if◌then◌else◌}
use sshvault.Prelude.Lists.{All, All-append}
use sshvault.Prelude.Order.{Text}
use sshvault.Prelude.Texts.{is_empty}

-- The decimal digits of a number; the fuel bounds how many there are.
unfoldable pub digits : ℕ → ℕ → Text
digits zero n = []
digits (suc fuel) n =
    let front = digits fuel (n / 10) in
    if ltb n 10 then (48 + n) ∷ [] else front ++ (48 + n % 10) ∷ []

-- Reading back.
unfoldable pub read_from : ℕ → Text → ℕ
read_from acc [] = acc
read_from acc (c ∷ s) = read_from (acc * 10 + (c - 48)) s

read_from-append :
    (acc : ℕ) (s : Text) (c : ℕ) → read_from acc (s ++ c ∷ []) ≡ read_from acc s * 10 + (c - 48)
unfolding read_from
read_from-append acc [] c = refl
read_from-append acc (d ∷ s) c = read_from-append (acc * 10 + (d - 48)) s c

pub read-digits : (fuel n : ℕ) → n < 10 ^ fuel → read_from 0 (digits fuel n) ≡ n
unfolding digits read_from
read-digits zero n h = omega arith
read-digits (suc fuel) n h =
    let small : n / 10 < 10 ^ fuel = (let h' = rw pow-suc at h in omega arith) in
    elim (Bool-cases (ltb n 10)) [
      | inl short ↦ rw short (ground arith)
      | inr long ↦ rw long (
          rw (read_from-append 0 (digits fuel (n / 10)) (48 + n % 10))
            (omega (arith, read-digits fuel (n / 10) small)))
    ]

unfoldable pub IsDigit : ℕ → Type 0
IsDigit c = 48 ≤ c

pub digits-IsDigit : (fuel n : ℕ) → All IsDigit (digits fuel n)
unfolding digits IsDigit
digits-IsDigit zero n = tt
digits-IsDigit (suc fuel) n = elim (Bool-cases (ltb n 10)) [
  | inl short ↦ rw short (omega arith)
  | inr long ↦
      rw long
        (All-append IsDigit (digits fuel (n / 10)) _ (digits-IsDigit fuel (n / 10)) (omega arith))
]

-- The digits after those read into `n`, if the number stays within the bound.
unfoldable pub parse_digits : ℕ → ℕ → Text → Option ℕ
parse_digits bound n [] = some n
parse_digits bound n (c ∷ s) =
    let next = n * 10 + (c - b'0') in
    let rest = parse_digits bound next s in
    if leb b'0' c && leb c b'9' && leb next bound then rest else none

-- `s.parse::<uN>()`: a plus sign may stand in front, and a digit has to be there.
unfoldable pub parse_uint : ℕ → Text → Option ℕ
unfolding parse_digits
parse_uint bound [] = none
parse_uint bound (c ∷ s) =
    let signed = parse_digits bound 0 s in
    let plain = parse_digits bound 0 (c ∷ s) in
    if c == b'+' then if is_empty s then none else signed else plain
