-- ===== src/Sshconfig/Forwards.antt =====
-- A forward whose spec was validated is rendered as one line of a keyword and whole tokens.
use mathlib.Core.List.{append_assoc, append-nil}
use sshvault.Prelude.{
  ℕ, ◌+◌, ◌-◌, ◌*◌, ◌≤◌, ◌≡◌, ◌≢◌, ◌↔◌, refl, ap, ◌∙◌, inl, inr, true, false, none, some, List, [],
  ◌∷◌, ◌++◌, All, arith, length, Bool-cases, Option-cases, ◌==◌,
}
use sshvault.Prelude.Order.{Text}
use sshvault.Prelude.Digits.{parse_digits, parse_uint}
use sshvault.Prelude.Texts.{bytes, is_empty, has_space, split}
use sshvault.Prelude.Spaces.{
  plain, has_space-plain, has_space-append, has_space_empty, has_space-split,
}
use sshvault.Record.Payloads.{ForwardKind, PortForward}
use sshvault.Sshconfig.{
  valid, port_ok, addr_ok, check_dynamic, check_static, validate_forward_spec, forward_line, colon,
  static_forward, render_kind, render_forward,
}

-- One argument of a directive: not empty, and free of white space.
abbrev pub IsToken : Text → Type 0
IsToken t = (is_empty t ≡ false) × (has_space t ≡ false)

digit :
    (n c : ℕ) (s : Text) (m : ℕ)
    → parse_digits 65535 n (c ∷ s) ≡ some m
    → (plain c ≡ true) × (parse_digits 65535 (n * 10 + (c - 48)) s ≡ some m)
unfolding parse_digits
digit n c s m h = (ground arith, ground arith)

digits_no_space : (n : ℕ) (s : Text) (m : ℕ) → parse_digits 65535 n s ≡ some m → has_space s ≡ false
digits_no_space n [] m h = has_space_empty
digits_no_space n (c ∷ s) m h =
    let (p, rest) = digit n c s m h in
    has_space-plain c s p ∙ digits_no_space (n * 10 + (c - 48)) s m rest

signed_no_space :
    (c : ℕ) (s : Text) (m : ℕ) → parse_uint 65535 (c ∷ s) ≡ some m → has_space (c ∷ s) ≡ false
unfolding parse_uint
signed_no_space c s m h = elim (Bool-cases (c == 43)) [
  | inl e ↦ elim (Bool-cases (is_empty s)) [
    | inl f ↦ absurd (ground arith)
    | inr f ↦ has_space-plain c s (ground arith) ∙ digits_no_space 0 s m (ground arith)
  ]
  | inr e ↦ digits_no_space 0 (c ∷ s) m (ground arith)
]

port-IsToken : (s : Text) → port_ok s ≡ true → IsToken s
unfolding port_ok
port-IsToken [] h = absurd (ground arith)
port-IsToken (c ∷ s) h = elim (Option-cases (parse_uint 65535 (c ∷ s))) [
  | inl e ↦ absurd (ground arith)
  | inr (m, e) ↦ (refl, signed_no_space c s m e)
]

addr-IsToken : (s : Text) → addr_ok s ≡ true → IsToken s
unfolding addr_ok
addr-IsToken s h = (ground arith, ground arith)

is_empty-append : (a b : Text) → is_empty (colon a b) ≡ false
is_empty-append [] b = refl
is_empty-append (c ∷ a) b = refl

colon-IsToken : (a b : Text) → IsToken a → IsToken b → IsToken (colon a b)
colon-IsToken a b h k = (is_empty-append a b, has_space-append a 58 b refl ∙ rw (h.1, k.1) refl)

-- The arguments, each after a space.
abbrev pub spaced : List Text → Text
spaced [] = []
spaced (t ∷ ts) = (b' ' ∷ t) ++ spaced ts

abbrev pub keyword_of : ForwardKind → Text
keyword_of ForwardKind.local = bytes "LocalForward"
keyword_of ForwardKind.remote = bytes "RemoteForward"
keyword_of ForwardKind.dynamic = bytes "DynamicForward"

static-Tokens :
    (keyword : Text) (parts : List Text)
    → check_static parts ≡ valid
    → (listen : Text) × (dest : Text) × (static_forward keyword parts
        ≡ some (forward_line keyword listen dest))
      × IsToken listen
      × IsToken dest
unfolding check_static static_forward
static-Tokens keyword [] h = absurd (ground arith)
static-Tokens keyword (a ∷ []) h = absurd (ground arith)
static-Tokens keyword (a ∷ b ∷ []) h = absurd (ground arith)
static-Tokens keyword (a ∷ b ∷ c ∷ []) h = (
  a,
  colon b c,
  refl,
  port-IsToken a (ground arith),
  colon-IsToken b c (addr-IsToken b (ground arith)) (port-IsToken c (ground arith)),
)
static-Tokens keyword (a ∷ b ∷ c ∷ d ∷ []) h = (
  colon a b,
  colon c d,
  refl,
  colon-IsToken a b (addr-IsToken a (ground arith)) (port-IsToken b (ground arith)),
  colon-IsToken c d (addr-IsToken c (ground arith)) (port-IsToken d (ground arith)),
)
static-Tokens keyword (a ∷ b ∷ c ∷ d ∷ e ∷ r) h = absurd (ground arith)

pieces : (ps : List Text) → check_dynamic ps ≡ valid → All (λ p. has_space p ≡ false) ps
unfolding check_dynamic
pieces [] h = tt
pieces (p ∷ []) h = ((port-IsToken p (ground arith)).1, tt)
pieces (b ∷ p ∷ []) h = ((addr-IsToken b (ground arith)).1, ((port-IsToken p (ground arith)).1, tt))
pieces (a ∷ b ∷ c ∷ ps) h = absurd (ground arith)

dynamic-IsToken : (spec : Text) → check_dynamic (split b':' spec) ≡ valid → IsToken spec
unfolding check_dynamic split port_ok parse_uint
dynamic-IsToken [] h = absurd (ground arith)
dynamic-IsToken (c ∷ s) h = (refl, has_space-split 58 (c ∷ s) refl (pieces (split 58 (c ∷ s)) h))

line_of :
    (keyword listen dest : Text)
    → forward_line keyword listen dest
      ≡ (bytes "    " ++ keyword) ++ spaced (listen ∷ dest ∷ []) ++ (b'\n' ∷ [])
unfolding forward_line
line_of keyword listen dest = simp (append_assoc, append-nil)

static_rendered :
    (keyword : Text) (spec : Text)
    → check_static (split 58 spec) ≡ valid
    → (args : List Text) × (static_forward keyword (split 58 spec)
        ≡ some ((bytes "    " ++ keyword) ++ spaced args ++ (b'\n' ∷ [])))
      × All IsToken args
static_rendered keyword spec h =
    let (listen, dest, e, a, b) = static-Tokens keyword (split 58 spec) h in
    (listen ∷ dest ∷ [], e ∙ ap some (line_of keyword listen dest), (a, (b, tt)))

kind_rendered :
    (kind : ForwardKind) (spec : Text)
    → validate_forward_spec kind spec ≡ valid
    → (args : List Text) × (render_kind kind spec
        ≡ some ((bytes "    " ++ keyword_of kind) ++ spaced args ++ (b'\n' ∷ [])))
      × All IsToken args
unfolding validate_forward_spec render_kind
kind_rendered ForwardKind.local spec h = static_rendered (bytes "LocalForward") spec h
kind_rendered ForwardKind.remote spec h = static_rendered (bytes "RemoteForward") spec h
kind_rendered ForwardKind.dynamic spec h =
    (spec ∷ [], simp (append-nil), (dynamic-IsToken spec h, tt))

-- A forward whose spec was validated is rendered without a panic, as the keyword of its kind and
-- some arguments, each after a space, of which none is empty or has white space in it, and the end
-- of the line.
pub render_forward-Tokens :
    (f : PortForward)
    → validate_forward_spec f.kind f.spec ≡ valid
    → (args : List Text) × (render_forward f
        ≡ some ((bytes "    " ++ keyword_of f.kind) ++ spaced args ++ (b'\n' ∷ [])))
      × All IsToken args
unfolding render_forward
render_forward-Tokens f h = kind_rendered f.kind f.spec h

too_few :
    (keyword : Text) (parts : List Text)
    → (static_forward keyword parts ≡ none) ↔ (length parts ≤ 2)
unfolding static_forward
too_few keyword [] = (λ h. omega arith, λ h. refl)
too_few keyword (a ∷ []) = (λ h. omega arith, λ h. refl)
too_few keyword (a ∷ b ∷ []) = (λ h. omega arith, λ h. refl)
too_few keyword (a ∷ b ∷ c ∷ []) = (λ h. absurd (ground arith), λ h. absurd (omega (arith, h)))
too_few keyword (a ∷ b ∷ c ∷ d ∷ []) = (λ h. absurd (ground arith), λ h. absurd (omega (arith, h)))
too_few keyword (a ∷ b ∷ c ∷ d ∷ e ∷ r) =
    (λ h. absurd (ground arith), λ h. absurd (omega (arith, h)))

-- A spec that was not validated makes the rendering panic just when the forward is local or remote
-- and the spec has fewer than three parts; a dynamic one always gives a line.
pub render_kind-none_iff :
    (spec : Text)
    → ((render_kind ForwardKind.local spec ≡ none) ↔ (length (split b':' spec) ≤ 2))
      × ((render_kind ForwardKind.remote spec ≡ none) ↔ (length (split b':' spec) ≤ 2))
      × (render_kind ForwardKind.dynamic spec ≢ none)
unfolding render_kind
render_kind-none_iff spec = (
  too_few (bytes "LocalForward") (split b':' spec),
  too_few (bytes "RemoteForward") (split b':' spec),
  λ h. ground arith,
)
