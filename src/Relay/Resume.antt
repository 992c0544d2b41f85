-- ===== src/Relay/Resume.antt =====
-- A client that pulls from the head of its last pull misses nothing and gets nothing twice.
use mathlib.Core.List.{map-append}
use sshvault.Prelude.{
  ℕ, ◌≤◌, ◌<◌, ◌^◌, ◌≡◌, refl, ap, max, Bool, false, List, [], ◌∷◌, ◌++◌, map, All, arith, sym,
  subst,
}
use sshvault.Prelude.Order.{Text}
use sshvault.Proto.{PullResp}
use sshvault.Relay.Db.{Db, EntryRow, migrate, head, max_seq, rows_where}
use sshvault.Relay.Handler.{ok, ◌>>=◌}
use sshvault.Relay.Auth.{Env, verify}
use sshvault.Relay.Log.{pull, is_past, is_visible, pull_signed, wire_entry}
use sshvault.Relay.Requests.{Request, run}
use sshvault.Relay.Cursor.{Extends, IsNumbered, run-Extends}

rows_where-append :
    (p : EntryRow → Bool) (rows more : List EntryRow)
    → rows_where p (rows ++ more) ≡ rows_where p rows ++ rows_where p more
unfolding rows_where
rows_where-append p [] more = refl
rows_where-append p (r ∷ rows) more = ground (arith, rows_where-append p rows more)

rows_where_same :
    (p q : EntryRow → Bool) (rows : List EntryRow)
    → All (λ (r : EntryRow). p r ≡ q r) rows
    → rows_where p rows ≡ rows_where q rows
unfolding rows_where
rows_where_same p q [] h = refl
rows_where_same p q (r ∷ rows) h = ground (arith, rows_where_same p q rows h.1)

rows_where_none :
    (p : EntryRow → Bool) (rows : List EntryRow)
    → All (λ (r : EntryRow). p r ≡ false) rows
    → rows_where p rows ≡ []
unfolding rows_where
rows_where_none p [] h = refl
rows_where_none p (r ∷ rows) h = ground (arith, rows_where_none p rows h.1)

max_seq-le :
    (vault : Text) (low high : ℕ) (rows : List EntryRow)
    → IsNumbered low high rows
    → max_seq vault rows ≤ high
unfolding max_seq
max_seq-le vault low high [] h = omega arith
max_seq-le vault low high (r ∷ rows) h = ground (arith, max_seq-le vault low high rows h.1)

module _ (db db' : Db) (vault key : Text) (same : db'.members ≡ db.members) where
  -- What a device may see does not depend on the rest of the tables.
  visible_same :
      (since : ℕ) (r : EntryRow)
      → is_visible db' vault key since r ≡ is_visible db vault key since r
  unfolding is_visible
  visible_same since r = rw same

  old_same :
      (since : ℕ) (rows : List EntryRow)
      → All
          (λ (r : EntryRow). is_visible db' vault key since r ≡ is_visible db vault key since r)
          rows
  old_same since [] = tt
  old_same since (r ∷ rows) = (visible_same since r, old_same since rows)

-- An old row of the vault is not past the head.
old_hidden :
    (db : Db) (vault key : Text) (since bound : ℕ) (rows : List EntryRow)
    → max_seq vault rows ≤ bound
    → bound ≤ since
    → since < 2 ^ 63
    → All (λ (r : EntryRow). is_visible db vault key since r ≡ false) rows
unfolding is_visible is_past max_seq
old_hidden db vault key since bound [] h k w = tt
old_hidden db vault key since bound (r ∷ rows) h k w =
    (ground arith, old_hidden db vault key since bound rows (ground arith) k w)

-- A new row is past both cursors, or the cursors agree; neither wraps.
new_same :
    (db : Db) (vault key : Text) (since top low high : ℕ) (rows : List EntryRow)
    → top ≤ low
    → max top since < 2 ^ 63
    → IsNumbered low high rows
    → All
        (λ (r : EntryRow).
          is_visible db vault key since r ≡ is_visible db vault key (max top since) r)
        rows
unfolding is_visible is_past
new_same db vault key since top low high [] h w n = tt
new_same db vault key since top low high (r ∷ rows) h w n =
    (ground arith, new_same db vault key since top low high rows h w n.1)

module _ (env : Env) (vault key : Text) where
  -- The entries that a pull from a cursor hands out.
  abbrev handed : Db → ℕ → List EntryRow
  handed db since = rows_where (is_visible db vault key since) db.entries

  handed_resume :
      (db db' : Db) (since low : ℕ)
      → IsNumbered low db.last_seq db.entries
      → since < 2 ^ 63
      → db.last_seq < 2 ^ 63
      → Extends (db.entries, db.last_seq) (db'.entries, db'.last_seq)
      → db'.members ≡ db.members
      → handed db' since ≡ handed db since ++ handed db' (max (head db vault) since)
  unfolding head
  handed_resume db db' since low n small room x same =
      let top = head db vault in
      let top_le = max_seq-le vault low db.last_seq db.entries n in
      let fits : max top since < 2 ^ 63 = omega (arith, top_le) in
      let p = is_visible db' vault key since in
      let q = is_visible db' vault key (max top since) in
      let old =
        rows_where_same p (is_visible db vault key since) db.entries
          (old_same db db' vault key same since db.entries) in
      let gone = rows_where_none q db.entries (
        old_hidden db' vault key (max top since) top db.entries (omega arith) (omega arith) fits) in
      let fresh = rows_where_same p q x.new (
        new_same db' vault key since top db.last_seq db'.last_seq x.new
          (max_seq-le vault low db.last_seq db.entries n) fits x.numbered) in
      cc (
        ap (rows_where p) x.rows,
        ap (rows_where q) x.rows,
        rows_where-append p db.entries x.new,
        rows_where-append q db.entries x.new,
        old,
        gone,
        fresh,
      )

  pull_lem :
      (now : ℕ) (vault_b64 device sig : Text) (since ts : ℕ) (db : Db) {p : PullResp}
      → verify env now (pull_signed env now vault_b64 device sig since ts) db
        ≡ (ok (vault, key), db)
      → (pull env now vault_b64 device sig since ts db).0 ≡ ok p
      → (p.entries ≡ map (wire_entry env now) (handed db since))
        × (p.head ≡ max (head db vault) since)
  unfolding pull ◌>>=◌
  pull_lem now vault_b64 device sig since ts db v h = (ground arith, ground arith)

reachable-IsNumbered :
    (env : Env) (reqs : List (ℕ × Request))
    → IsNumbered 0 (run env reqs migrate).last_seq (run env reqs migrate).entries
reachable-IsNumbered env reqs =
    let x = run-Extends env reqs migrate in
    subst (IsNumbered 0 (run env reqs migrate).last_seq) (sym x.rows) x.numbered

-- On a relay with any history, whose numbers are within an `i64`, let a device pull from some
-- cursor below 2^63, then, after any requests that
-- leave the memberships as they are, from the head that it was given. Both replies together are
-- what one pull from the first cursor gives at the later time.
pub pull_resume :
    (env : Env) (vault key : Text) (before between : List (ℕ × Request)) (now later : ℕ)
    (v d s s' s'' : Text) (since ts ts' ts'' : ℕ) {p q r : PullResp}
    → let db = run env before migrate in
      let db' = run env between db in
      verify env now (pull_signed env now v d s since ts) db ≡ (ok (vault, key), db)
      → (pull env now v d s since ts db).0 ≡ ok p
      → verify env later (pull_signed env later v d s' p.head ts') db' ≡ (ok (vault, key), db')
      → (pull env later v d s' p.head ts' db').0 ≡ ok q
      → verify env later (pull_signed env later v d s'' since ts'') db' ≡ (ok (vault, key), db')
      → (pull env later v d s'' since ts'' db').0 ≡ ok r
      → since < 2 ^ 63
      → db.last_seq < 2 ^ 63
      → db'.members ≡ db.members
      → r.entries ≡ p.entries ++ q.entries
unfolding wire_entry
pull_resume env vault key before between now later v d s s' s'' since ts ts' ts'' vp hp vq hq vr hr
      small room m =
    let db = run env before migrate in
    let db' = run env between db in
    let a = pull_lem env vault key now v d s since ts db vp hp in
    let b = pull_lem env vault key later v d s' _ ts' db' vq hq in
    let c = pull_lem env vault key later v d s'' since ts'' db' vr hr in
    let old = rows_where (is_visible db vault key since) db.entries in
    let new = λ (from : ℕ). rows_where (is_visible db' vault key from) db'.entries in
    cc (
      a.0,
      b.0,
      c.0,
      ap new a.1,
      handed_resume env vault key db db' since 0 (reachable-IsNumbered env before) small room
          (run-Extends env between db) m,
      map-append (wire_entry env now) old (new (max (head db vault) since)),
    )
