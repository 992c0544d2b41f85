-- ===== src/Relay/Cursor.antt =====
-- The log only grows, under numbers past all that were given before, so a client that pulls from
-- the head of its last pull misses nothing.
use mathlib.Core.List.{append-nil, append_assoc}
use sshvault.Prelude.{
  ℕ, ◌+◌, ◌≤◌, ◌<◌, ◌≡◌, refl, sym, ap, ◌∙◌, List, [], ◌∷◌, ◌++◌, All, All-append, arith,
  Bool-cases, inl, inr,
}
use sshvault.Prelude.Order.{Text}
use sshvault.Relay.Db.{Db, EntryRow, any_row, is_entry}
use sshvault.Relay.Auth.{Env}
use sshvault.Relay.Lifecycle
use sshvault.Relay.Log
use sshvault.Relay.Log.{is_visible, pull_signed, wire_entry, nil_share}
use sshvault.Relay.Moves.{Moves-exec}
use sshvault.Relay.Requests.{Request, run}
use sshvault.Relay.Requests.Runs.{run-moves_all}
use sshvault.Relay.Requests.Induction.{Statements}
use sshvault.Relay.Requests.Tables.{IsOrder, IsOrder-preorder, log-Statements}

-- The table `entries` with its AUTOINCREMENT number.
abbrev EntryLog : Type 0
EntryLog = List EntryRow × ℕ

-- Rows with numbers past `low`, up to `high`.
abbrev pub IsNumbered : ℕ → ℕ → List EntryRow → Type 0
IsNumbered low high = All (λ (r : EntryRow). (low < r.seq) × (r.seq ≤ high))

-- `b` is `a` with new rows behind it, numbered past all of `a`.
pub record Extends (a b : EntryLog) : Type 0 where
  pub new : List EntryRow
  pub rows : b.0 ≡ a.0 ++ new
  pub numbers : a.1 ≤ b.1
  pub numbered : IsNumbered a.1 b.1 new

IsNumbered-widen :
    (low high low' high' : ℕ) (rows : List EntryRow)
    → low' ≤ low
    → high ≤ high'
    → IsNumbered low high rows
    → IsNumbered low' high' rows
IsNumbered-widen low high low' high' [] l h n = tt
IsNumbered-widen low high low' high' (r ∷ rows) l h n =
    (omega arith, IsNumbered-widen low high low' high' rows l h n.1)

pub Extends-IsOrder : IsOrder Extends
Extends-IsOrder = record {
  refl =
      λ a. record { new = []; rows = sym (append-nil a.0); numbers = omega arith; numbered = tt };
  trans = λ a b c f g. record {
    new = f.new ++ g.new;
    rows = g.rows ∙ ap (λ t. t ++ g.new) f.rows ∙ append_assoc a.0 f.new g.new;
    numbers = omega (arith, f.numbers, g.numbers);
    numbered =
        All-append _ f.new g.new
          (IsNumbered-widen a.1 b.1 a.1 c.1 f.new (omega arith) g.numbers f.numbered)
          (IsNumbered-widen b.1 c.1 a.1 c.1 g.new f.numbers (omega arith) g.numbered);
  };
}

pub insert-Extends :
    (v i b s : Text) (db : Db)
    → Extends
        (db.entries, db.last_seq)
        ((Log.insert_entry v i b s db).1.entries, (Log.insert_entry v i b s db).1.last_seq)
unfolding Log.insert_entry
insert-Extends v i b s db = elim (Bool-cases (any_row (is_entry v i) db.entries)) [
  | inl e ↦ rw e (record {
    new = [];
    rows = sym (append-nil db.entries);
    numbers = omega arith;
    numbered = tt;
  })
  | inr e ↦ rw e (record {
    new = record { vault_id = v; seq = db.last_seq + 1; entry_id = i; blob = b; share_id = s } ∷ [];
    rows = refl;
    numbers = omega arith;
    numbered = omega arith;
  })
]

-- Whatever is requested, the log keeps its rows in front, and the rows behind them are numbered
-- past every number that was given before.
pub run-Extends :
    (env : Env) (reqs : List (ℕ × Request)) (db : Db)
    → Extends (db.entries, db.last_seq) ((run env reqs db).entries, (run env reqs db).last_seq)
unfolding Lifecycle.readmit_device
run-Extends env reqs db =
    run-moves_all env reqs db (IsOrder-preorder (λ a. (a.entries, a.last_seq)) Extends-IsOrder)
      (each reqs) (λ v k x m. Moves-exec _ (λ a. Extends-IsOrder.refl (a.entries, a.last_seq)))
  where
    each :
        (l : List (ℕ × Request))
        → All
            (λ (e : ℕ × Request).
              Statements e.0 (λ a b. Extends (a.entries, a.last_seq) (b.entries, b.last_seq)))
            l
    each [] = tt
    each (e ∷ l) = (log-Statements e.0 Extends Extends-IsOrder insert-Extends, each l)
