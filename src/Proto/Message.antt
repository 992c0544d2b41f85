-- ===== src/Proto/Message.antt =====
-- `signing_message` of src/proto.rs: the bytes that a signature covers determine the timestamp and
-- the body.
use sshvault.Prelude.{
  ℕ, ◌-◌, ◌^◌, ◌<◌, ◌≡◌, refl, sym, ap, ◌∙◌, ◌≢◌, [], ◌∷◌, ◌++◌, arith, ltb, ◌==◌, if◌then◌else◌,
  All, Bool-cases, inl, inr,
}
use sshvault.Prelude.Order.{Text}
use sshvault.Prelude.Digits.{digits, read_from, read-digits, IsDigit, digits-IsDigit}

-- Twenty digits are enough for 64 bits.
unfoldable pub show_nat : ℕ → Text
unfolding digits
show_nat n = digits 20 n

-- `format!("{ts}")` of an `i64`, given by its pattern.
show_i64 : ℕ → Text
unfolding show_nat
show_i64 x = if ltb x (2 ^ 63) then show_nat x else b'-' ∷ show_nat (2 ^ 64 - x)

unfoldable pub signing_message : ℕ → Text → Text
unfolding show_i64
signing_message ts body = show_i64 ts ++ 10 ∷ body

abbrev until_newline : Text → Text
until_newline [] = []
until_newline (c ∷ s) = let rest = until_newline s in if c == 10 then [] else c ∷ rest

abbrev after_newline : Text → Text
after_newline [] = []
after_newline (c ∷ s) = let rest = after_newline s in if c == 10 then s else rest

abbrev NoNewline : Text → Type 0
NoNewline = All (λ c. c ≢ 10)

until-append : (s t : Text) → NoNewline s → until_newline (s ++ 10 ∷ t) ≡ s
until-append [] t h = refl
until-append (c ∷ s) t h = ground (arith, until-append s t h.1)

after-append : (s t : Text) → NoNewline s → after_newline (s ++ 10 ∷ t) ≡ t
after-append [] t h = refl
after-append (c ∷ s) t h = ground (arith, after-append s t h.1)

digits-NoNewline : (s : Text) → All IsDigit s → NoNewline s
unfolding IsDigit
digits-NoNewline [] h = tt
digits-NoNewline (c ∷ s) h = (omega arith, digits-NoNewline s h.1)

show_i64-NoNewline : (x : ℕ) → NoNewline (show_i64 x)
unfolding show_i64
show_i64-NoNewline x = elim (Bool-cases (ltb x (2 ^ 63))) [
  | inl e ↦ rw e (digits-NoNewline _ (digits-IsDigit 20 x))
  | inr e ↦ rw e ((omega arith), digits-NoNewline _ (digits-IsDigit 20 (2 ^ 64 - x)))
]

read_i64 : Text → ℕ
read_i64 [] = 0
read_i64 (c ∷ s) = if c == b'-' then 2 ^ 64 - read_from 0 s else read_from 0 (c ∷ s)

read_i64-digits : (s : Text) → All IsDigit s → read_i64 s ≡ read_from 0 s
unfolding read_i64 read_from IsDigit
read_i64-digits [] h = refl
read_i64-digits (c ∷ s) h = ground arith

read-show_i64 : (x : ℕ) → x < 2 ^ 64 → read_i64 (show_i64 x) ≡ x
unfolding show_i64
read-show_i64 x h = elim (Bool-cases (ltb x (2 ^ 63))) [
  | inl e ↦ rw e (read_i64-digits _ (digits-IsDigit 20 x) ∙ read-digits 20 x (omega arith))
  | inr e ↦ rw e (unfold read_i64 in omega (arith, read-digits 20 (2 ^ 64 - x) (omega arith)))
]

-- What a signature covers determines the timestamp and the body: no signature made for one pair
-- covers another.
pub signing_message-injective :
    (ts ts' : ℕ) (body body' : Text)
    → ts < 2 ^ 64
    → ts' < 2 ^ 64
    → signing_message ts body ≡ signing_message ts' body'
    → (ts ≡ ts') × (body ≡ body')
unfolding signing_message
signing_message-injective ts ts' body body' h h' e =
    let shown : show_i64 ts ≡ show_i64 ts' =
      sym (until-append (show_i64 ts) body (show_i64-NoNewline ts))
      ∙ ap until_newline e
      ∙ until-append (show_i64 ts') body' (show_i64-NoNewline ts') in
    (
      sym (read-show_i64 ts h) ∙ ap read_i64 shown ∙ read-show_i64 ts' h',
      sym (after-append (show_i64 ts) body (show_i64-NoNewline ts))
          ∙ ap after_newline e
          ∙ after-append (show_i64 ts') body' (show_i64-NoNewline ts'),
    )
