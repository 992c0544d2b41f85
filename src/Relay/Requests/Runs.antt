-- ===== src/Relay/Requests/Runs.antt =====
-- Sequences of requests move the tables along a preorder along which each statement does.
use sshvault.Prelude.{ℕ, List, [], ◌∷◌, All}
use sshvault.Prelude.Order.{Text}
use sshvault.Relay.Db.{Db}
use sshvault.Relay.Handler.{exec}
use sshvault.Relay.Auth.{Env}
use sshvault.Relay.Moves.{Moves, IsPreorder}
use sshvault.Relay.Lifecycle
use sshvault.Relay.Requests.{
  Request, enroll, approve, revoke, rotate, share_grant, share_rotate, push, shares, devices,
  wrapped, recover, pull, ws, serve, run,
}
use sshvault.Relay.Requests.Induction
use sshvault.Relay.Requests.Induction.{Statements}

abbrev pub NotRecover : Request → Type 0
NotRecover (recover req) = ⊥
NotRecover _ = Unit

module _ (env : Env) (now : ℕ) {R : Db → Db → Type 0} (k : Statements now R) where
  pub serve-moves : (r : Request) (db : Db) → NotRecover r → R db (serve env now r db)
  unfolding serve
  serve-moves (enroll s) db h = (Induction.Moves-enroll env now k s).at db
  serve-moves (approve s) db h = (Induction.Moves-approve env now k s).at db
  serve-moves (revoke s) db h = (Induction.Moves-revoke env now k s).at db
  serve-moves (rotate s) db h = (Induction.Moves-rotate env now k s).at db
  serve-moves (share_grant s) db h = (Induction.Moves-share_grant env now k s).at db
  serve-moves (share_rotate s) db h = (Induction.Moves-share_rotate env now k s).at db
  serve-moves (push s) db h = (Induction.Moves-push env now k s).at db
  serve-moves (shares v d s ts) db h = (Induction.Moves-shares env now k v d s ts).at db
  serve-moves (devices v d s ts) db h = (Induction.Moves-devices env now k v d s ts).at db
  serve-moves (wrapped v d s ts) db h = (Induction.Moves-wrapped env now k v d s ts).at db
  serve-moves (recover req) db h = elim h [ ]
  serve-moves (pull v d s since ts) db h = (Induction.Moves-pull env now k v d s since ts).at db
  serve-moves (ws v) db h = k.subscribe v db

  -- With the statement of `recover`, every request.
  pub serve-moves_all :
      ((vault key x_pub name : Text)
        → Moves R (exec (Lifecycle.readmit_device vault key x_pub name)))
      → (r : Request) (db : Db) → R db (serve env now r db)
  unfolding serve
  serve-moves_all readmit (recover req) db = (Induction.Moves-recover env now k readmit req).at db
  serve-moves_all readmit (enroll s) db = serve-moves (enroll s) db tt
  serve-moves_all readmit r db = serve-moves r db tt

module _ (env : Env) {R : Db → Db → Type 0} where
  pub run-moves :
      (reqs : List (ℕ × Request)) (db : Db)
      → IsPreorder R
      → All (λ (e : ℕ × Request). Statements e.0 R × NotRecover e.1) reqs
      → R db (run env reqs db)
  unfolding run
  run-moves [] db o h = o.refl db
  run-moves ((now, r) ∷ rest) db o ((k, n), h) =
      let db' = serve env now r db in
      o.trans db db' _ (serve-moves env now k r db n) (run-moves rest db' o h)

  pub run-moves_all :
      (reqs : List (ℕ × Request)) (db : Db)
      → IsPreorder R
      → All (λ (e : ℕ × Request). Statements e.0 R) reqs
      → ((vault key x_pub name : Text)
          → Moves R (exec (Lifecycle.readmit_device vault key x_pub name)))
      → R db (run env reqs db)
  unfolding run
  run-moves_all [] db o h readmit = o.refl db
  run-moves_all ((now, r) ∷ rest) db o (k, h) readmit =
      let db' = serve env now r db in
      o.trans db db' _ (serve-moves_all env now k readmit r db) (run-moves_all rest db' o h readmit)
