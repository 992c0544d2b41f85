-- ===== src/Prelude/Texts.antt =====
-- Texts as the program uses them: literals, searches, splits and white space, on UTF-8 bytes.
use Prim.Native.Char.{code}
use Prim.Native.String.{String}
use Prim.Native.Nat.{ℕ, zero, suc, ◌+◌, ◌-◌}
use mathlib.Core.Bool.{Bool, true, false, ◌&&◌, ◌||◌, not}
use mathlib.Core.List.{List, [], ◌∷◌}
use sshvault.Prelude.Tests.{leb, ◌==◌, if◌then◌else◌}
use sshvault.Prelude.Lists.{length}
use sshvault.Prelude.Order.{Text}

-- The bytes of an ASCII text.
abbrev pub bytes : String → Text
bytes String.[] = []
bytes (String.◌∷◌ c s) = code c ∷ bytes s

abbrev pub is_empty {ℓ} : {A : Type ℓ} → List A → Bool
is_empty [] = true
is_empty (x ∷ xs) = false

-- `s.starts_with(p)`, the pattern first
unfoldable pub starts_with : Text → Text → Bool
starts_with [] s = true
starts_with (p ∷ ps) [] = false
starts_with (p ∷ ps) (c ∷ s) = p == c && starts_with ps s

-- `s.contains(p)`, the pattern first
unfoldable pub contains : Text → Text → Bool
unfolding starts_with
contains p [] = is_empty p
contains p (c ∷ s) = starts_with p (c ∷ s) || contains p s

-- `s.contains(c)` for one byte
unfoldable pub has : ℕ → Text → Bool
has c [] = false
has c (b ∷ s) = b == c || has c s

-- The first piece grows at its front.
abbrev pub cons_first : ℕ → List Text → List Text
cons_first c [] = (c ∷ []) ∷ []
cons_first c (p ∷ ps) = (c ∷ p) ∷ ps

-- `s.split(c)`: the pieces between the separators, one more than there are separators
unfoldable pub split : ℕ → Text → List Text
split sep [] = [] ∷ []
split sep (c ∷ s) = let rest = split sep s in if c == sep then [] ∷ rest else cons_first c rest

-- The characters of `char::is_whitespace`, in UTF-8.
abbrev pub spaces : List Text
spaces =
    (9 ∷ [])
    ∷ (10 ∷ [])
    ∷ (11 ∷ [])
    ∷ (12 ∷ [])
    ∷ (13 ∷ [])
    ∷ (32 ∷ [])
    ∷ (194 ∷ 133 ∷ [])
    ∷ (194 ∷ 160 ∷ [])
    ∷ (225 ∷ 154 ∷ 128 ∷ [])
    ∷ (226 ∷ 128 ∷ 128 ∷ [])
    ∷ (226 ∷ 128 ∷ 129 ∷ [])
    ∷ (226 ∷ 128 ∷ 130 ∷ [])
    ∷ (226 ∷ 128 ∷ 131 ∷ [])
    ∷ (226 ∷ 128 ∷ 132 ∷ [])
    ∷ (226 ∷ 128 ∷ 133 ∷ [])
    ∷ (226 ∷ 128 ∷ 134 ∷ [])
    ∷ (226 ∷ 128 ∷ 135 ∷ [])
    ∷ (226 ∷ 128 ∷ 136 ∷ [])
    ∷ (226 ∷ 128 ∷ 137 ∷ [])
    ∷ (226 ∷ 128 ∷ 138 ∷ [])
    ∷ (226 ∷ 128 ∷ 168 ∷ [])
    ∷ (226 ∷ 128 ∷ 169 ∷ [])
    ∷ (226 ∷ 128 ∷ 175 ∷ [])
    ∷ (226 ∷ 129 ∷ 159 ∷ [])
    ∷ (227 ∷ 128 ∷ 128 ∷ [])
    ∷ []

-- The length of the first pattern that the text starts with, or 0.
unfoldable pub match_length : List Text → Text → ℕ
unfolding starts_with
match_length [] s = 0
match_length (p ∷ ps) s = if starts_with p s then length p else match_length ps s

-- `s.chars().any(char::is_whitespace)`
unfoldable pub has_space : Text → Bool
unfolding match_length
has_space [] = false
has_space (c ∷ s) = not (match_length spaces (c ∷ s) == 0) || has_space s

-- `s.trim_start()`; `k` bytes of a character of white space are still to be passed.
unfoldable pub trim_start : ℕ → Text → Text
unfolding match_length
trim_start k [] = []
trim_start (suc k) (c ∷ s) = trim_start k s
trim_start zero (c ∷ s) =
    let n = match_length spaces (c ∷ s) in
    let rest = trim_start (n - 1) s in if n == 0 then c ∷ s else rest

-- `s.trim_end()`
unfoldable pub trim_end : Text → Text
unfolding trim_start
trim_end [] = []
trim_end (c ∷ s) = let rest = trim_end s in if is_empty (trim_start 0 (c ∷ s)) then [] else c ∷ rest

-- `s.trim()`
unfoldable pub trim : Text → Text
unfolding trim_start trim_end
trim s = trim_end (trim_start 0 s)

-- `s.to_ascii_lowercase()`
unfoldable pub lowercase : Text → Text
lowercase [] = []
lowercase (c ∷ s) = (if leb b'A' c && leb c b'Z' then c + 32 else c) ∷ lowercase s

-- The carriage return at the end
unfoldable pub strip_return : Text → Text
strip_return [] = []
strip_return (c ∷ []) = if c == 13 then [] else c ∷ []
strip_return (c ∷ d ∷ s) = c ∷ strip_return (d ∷ s)

-- A last piece that is empty is not a line.
unfoldable pub line_pieces : List Text → List Text
unfolding strip_return
line_pieces [] = []
line_pieces (p ∷ []) = if is_empty p then [] else p ∷ []
line_pieces (p ∷ q ∷ ps) = strip_return p ∷ line_pieces (q ∷ ps)

-- `s.lines()`
unfoldable pub lines : Text → List Text
unfolding split line_pieces
lines s = line_pieces (split 10 s)
