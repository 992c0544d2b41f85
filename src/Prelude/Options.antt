-- ===== src/Prelude/Options.antt =====
-- The monad of `Option`, as `?` uses it.
use mathlib.Core.Path.{◌≡◌, refl}
use mathlib.Core.Option.{Option, none, some}

module _ {ℓ κ} {A : Type ℓ} {B : Type κ} where
  infixl 10 ◌>>=◌
  abbrev pub ◌>>=◌ : Option A → (A → Option B) → Option B
  none >>= f = none
  some a >>= f = f a

-- `a.or(b)`
abbrev pub or_option {ℓ} : {A : Type ℓ} → Option A → Option A → Option A
or_option (some a) b = some a
or_option none b = b

pub or_none {ℓ} : {A : Type ℓ} (a : Option A) → or_option a none ≡ a
or_none (some a) = refl
or_none none = refl
