-- ===== src/Relay/Handler.antt =====
-- A handler changes the tables and replies; what it wrote before an error stays written, as no
-- handler opens a transaction. The text of an error is left out.
use sshvault.Prelude.{Bool, true, false, Option, none, some}
use sshvault.Relay.Db.{Db}

-- The `StatusCode` of an error.
pub data Status : Type 0 where
  bad_request unauthorized forbidden not_found conflict : Status

pub data Reply {ℓ} (A : Type ℓ) : Type ℓ where
  ok : A → Reply A
  err : Status → Reply A

abbrev pub Handler : Type 0 → Type 0
Handler A = Db → Reply A × Db

module _ {A : Type 0} where
  unfoldable pub pure : A → Handler A
  pure a db = (ok a, db)

  unfoldable pub raise : Status → Handler A
  raise s db = (err s, db)

  unfoldable pub lift : Reply A → Handler A
  lift r db = (r, db)

  -- A statement that only reads.
  unfoldable pub query : (Db → A) → Handler A
  query f db = (ok (f db), db)

  -- A statement that writes, with its result.
  unfoldable pub exec : (Db → A × Db) → Handler A
  exec f db = let (a, db') = f db in (ok a, db')

  -- `.ok_or(status)?`
  unfoldable pub or_raise : Option A → Status → Handler A
  or_raise none s db = (err s, db)
  or_raise (some a) s db = (ok a, db)

-- `if !test { return Err(status) }`
unfoldable pub guard : Bool → Status → Handler (Unit {0})
guard true s db = (ok tt, db)
guard false s db = (err s, db)

module _ {A B : Type 0} where
  continue : Reply A → (A → Handler B) → Handler B
  continue (ok a) f db = f a db
  continue (err s) f db = (err s, db)

  infixl 10 ◌>>=◌ ◌>>◌
  unfoldable pub ◌>>=◌ : Handler A → (A → Handler B) → Handler B
  unfolding continue pure raise lift query exec or_raise guard
  ◌>>=◌ m f db = let (r, db') = m db in continue r f db'

  abbrev pub ◌>>◌ : Handler A → Handler B → Handler B
  m >> n = m >>= λ _. n
