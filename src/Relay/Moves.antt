-- ===== src/Relay/Moves.antt =====
-- What a handler does to the tables, one rule for each way to build a handler: if every statement
-- moves the tables along a preorder, so does the handler, whether it replies or fails.
use sshvault.Prelude.{Bool, true, false, Option, none, some, if◌then◌else◌}
use sshvault.Relay.Db.{Db}
use sshvault.Relay.Handler.{
  Handler, Reply, ok, err, Status, pure, lift, query, exec, or_raise, guard, ◌>>=◌,
}

pub record IsPreorder (R : Db → Db → Type 0) : Type 0 where
  pub refl : (a : Db) → R a a
  pub trans : (a b c : Db) → R a b → R b c → R a c

pub record Moves {A : Type 0} (R : Db → Db → Type 0) (m : Handler A) : Type 0 where
  pub at : (db : Db) → R db (m db).1

module _ {A : Type 0} {R : Db → Db → Type 0} (o : IsPreorder R) where
  pub Moves-pure : (a : A) → Moves R (pure a)
  unfolding pure
  Moves-pure a = record { at = o.refl }

  pub Moves-lift : (r : Reply A) → Moves R (lift r)
  unfolding lift
  Moves-lift r = record { at = o.refl }

  pub Moves-query : (f : Db → A) → Moves R (query f)
  unfolding query
  Moves-query f = record { at = o.refl }

  pub Moves-or_raise : (a : Option A) (s : Status) → Moves R (or_raise a s)
  unfolding or_raise
  Moves-or_raise none s = record { at = o.refl }
  Moves-or_raise (some a) s = record { at = o.refl }

  pub Moves-if : (b : Bool) (m n : Handler A) → Moves R m → Moves R n → Moves R (if b then m else n)
  Moves-if true m n km kn = km
  Moves-if false m n km kn = kn

pub Moves-guard :
    {R : Db → Db → Type 0} → IsPreorder R → (b : Bool) (s : Status) → Moves R (guard b s)
unfolding guard
Moves-guard o true s = record { at = o.refl }
Moves-guard o false s = record { at = o.refl }

module _ {A B : Type 0} {R : Db → Db → Type 0} (o : IsPreorder R) where
  Moves-continue :
      (r : Reply A) (f : A → Handler B) (db : Db)
      → ((a : A) → Moves R (f a))
      → R db ((lift r >>= f) db).1
  unfolding ◌>>=◌
  Moves-continue (ok a) f db k = (k a).at db
  Moves-continue (err s) f db k = o.refl db

  pub Moves-bind :
      (m : Handler A) (f : A → Handler B)
      → Moves R m
      → ((a : A) → Moves R (f a))
      → Moves R (m >>= f)
  unfolding ◌>>=◌
  Moves-bind m f km kf = record {
    at = λ db. let (r, db') = m db in o.trans db db' _ (km.at db) (Moves-continue r f db' kf);
  }

pub Moves-exec :
    {A : Type 0} {R : Db → Db → Type 0} (f : Db → A × Db)
    → ((db : Db) → R db (f db).1)
    → Moves R (exec f)
unfolding exec
Moves-exec f h = record { at = h }

pub ruleset moves_rules =
    (Moves-pure, Moves-lift, Moves-query, Moves-or_raise, Moves-if, Moves-guard, Moves-bind)
