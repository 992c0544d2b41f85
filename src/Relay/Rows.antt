-- ===== src/Relay/Rows.antt =====
-- What the SQL statements do to the rows that a `WHERE` clause finds.
use mathlib.Core.Option
use sshvault.Prelude.{
  ◌≡◌, refl, Bool, true, false, ◌||◌, Option, none, some, List, [], ◌∷◌, ◌++◌, arith, if◌then◌else◌,
  Bool-cases, inl, inr,
}
use sshvault.Relay.Db.{any_row, first_row, update_where, upsert}

module _ {ℓ} {A : Type ℓ} where
  -- `o.or(e)`
  abbrev pub or_else : Option A → Option A → Option A
  or_else none e = e
  or_else (some a) e = some a

  pub first_row-append :
      (p : A → Bool) (rows more : List A)
      → first_row p (rows ++ more) ≡ or_else (first_row p rows) (first_row p more)
  unfolding first_row
  first_row-append p [] more = refl
  first_row-append p (r ∷ rows) more = ground (arith, first_row-append p rows more)

  pub any_row-append :
      (p : A → Bool) (rows more : List A)
      → any_row p (rows ++ more) ≡ (any_row p rows || any_row p more)
  unfolding any_row
  any_row-append p [] more = refl
  any_row-append p (r ∷ rows) more = ground (arith, any_row-append p rows more)

  -- There is a row exactly when one is found.
  pub any_row-none :
      (p : A → Bool) (rows : List A) → any_row p rows ≡ false → first_row p rows ≡ none
  unfolding any_row first_row
  any_row-none p [] h = refl
  any_row-none p (r ∷ rows) h = ground (arith, any_row-none p rows)

  pub none-any_row :
      (p : A → Bool) (rows : List A) → first_row p rows ≡ none → any_row p rows ≡ false
  unfolding any_row first_row
  none-any_row p [] h = refl
  none-any_row p (r ∷ rows) h = ground (arith, none-any_row p rows)

  pub any_row-some :
      (p : A → Bool) (rows : List A) {r : A} → first_row p rows ≡ some r → any_row p rows ≡ true
  unfolding any_row first_row
  any_row-some p [] h = cc
  any_row-some p (x ∷ rows) {r} h = ground (arith, any_row-some p rows {r = r})

  -- The row that is found fits.
  pub first_row-fits :
      (p : A → Bool) (rows : List A) {r : A} → first_row p rows ≡ some r → p r ≡ true
  unfolding first_row
  first_row-fits p [] h = cc
  first_row-fits p (x ∷ rows) {r} h = ground (arith, first_row-fits p rows {r = r})

  -- The rows that an update reads, where the update keeps the columns that `p` reads.
  module _ (p q : A → Bool) (f : A → A) (keeps : (r : A) → p (f r) ≡ p r) where
    pub first_row-update :
        (rows : List A)
        → first_row p (update_where q f rows)
          ≡ Option.map (λ r. if q r then f r else r) (first_row p rows)
    unfolding first_row update_where
    first_row-update [] = refl
    first_row-update (r ∷ rows) = ground (arith, first_row-update rows, keeps r)

    pub any_row-update : (rows : List A) → any_row p (update_where q f rows) ≡ any_row p rows
    unfolding any_row update_where
    any_row-update [] = refl
    any_row-update (r ∷ rows) = ground (arith, any_row-update rows, keeps r)

  -- What is found after an `INSERT … ON CONFLICT DO UPDATE`.
  pub first_row-upsert :
      (p q : A → Bool) (f : A → A) (row : A) (rows : List A)
      → ((r : A) → p (f r) ≡ p r)
      → first_row p (upsert q f row rows) ≡ (
          if any_row q rows
          then Option.map (λ r. if q r then f r else r) (first_row p rows)
          else or_else (first_row p rows) (if p row then some row else none))
  unfolding upsert first_row
  first_row-upsert p q f row rows keeps = elim (Bool-cases (any_row q rows)) [
    | inl e ↦ rw e (first_row-update p q f keeps rows)
    | inr e ↦ rw e (first_row-append p rows (row ∷ []))
  ]
