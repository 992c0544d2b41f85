-- ===== src/Relay/Replay.antt =====
-- The replay cache: a signature that a rotation used is refused for the next 300 seconds.
pub mod Gap
use sshvault.Prelude.{
  ℕ, ◌+◌, ◌≤◌, ◌<◌, ◌^◌, ◌≡◌, ◌≢◌, refl, ap, Bool, true, false, ◌&&◌, not, some, List, [], ◌∷◌, All,
  arith, ltb, leb,
}
use sshvault.Prelude.Order.{Text, text_eq, text_refl}
use sshvault.Proto.{Signed, PushResp, is_fresh, max_skew_secs}
use sshvault.Relay.Db.{Db, SeenRow, any_row, rows_where}
use sshvault.Relay.Handler.{ok, ◌>>=◌}
use sshvault.Relay.Rows.{any_row-append}
use sshvault.Relay.Auth.{Env, verify, record_sig, mark_seen}
use sshvault.Relay.Lifecycle
use sshvault.Relay.Shares
use sshvault.Relay.Moves.{Moves-exec}
use sshvault.Relay.Requests.{Request, run}
use sshvault.Relay.Requests.Runs.{run-moves_all}
use sshvault.Relay.Requests.Induction.{Statements, Moves-rotate_fresh}
use sshvault.Relay.Requests.Tables.{IsOrder, IsOrder-preorder, seen-Statements}

-- A row of the signature that is kept until the time `until`.
abbrev is_seen_row : Text → ℕ → SeenRow → Bool
is_seen_row sig until r = text_eq r.sig sig && leb until r.expires_at

abbrev pub IsSeen : Text → ℕ → List SeenRow → Type 0
IsSeen sig until rows = any_row (is_seen_row sig until) rows ≡ true

pub any_row-where :
    (p q : SeenRow → Bool) (rows : List SeenRow)
    → ((r : SeenRow) → p r ≡ true → q r ≡ true)
    → any_row p (rows_where q rows) ≡ any_row p rows
unfolding any_row rows_where
any_row-where p q [] h = refl
any_row-where p q (r ∷ rows) h = ground (arith, h r, any_row-where p q rows h)

pub any_row_imp :
    (p q : SeenRow → Bool) (rows : List SeenRow)
    → ((r : SeenRow) → p r ≡ true → q r ≡ true)
    → any_row p rows ≡ true
    → any_row q rows ≡ true
unfolding any_row
any_row_imp p q [] h e = cc
any_row_imp p q (r ∷ rows) h e = ground (arith, h r, any_row_imp p q rows h)

module _ (sig : Text) (until : ℕ) where
  -- Rows that are kept until then survive the eviction of an earlier time.
  pub record_sig-IsSeen :
      (now : ℕ) (other : Text) (db : Db)
      → now ≤ until
      → IsSeen sig until db.seen_sigs
      → IsSeen sig until (record_sig now other db).1.seen_sigs
  unfolding record_sig
  record_sig-IsSeen now other db early h =
      let live = rows_where (λ (r : SeenRow). not (ltb r.expires_at now)) db.seen_sigs in
      let kept : IsSeen sig until live =
        rw
          (any_row-where (is_seen_row sig until) (λ r. not (ltb r.expires_at now)) db.seen_sigs
            (λ r e. ground arith))
          h in
      ground (
        arith,
        any_row-append (is_seen_row sig until) live
            (record { sig = other; expires_at = now + max_skew_secs } ∷ []),
      )

  pub seen_again :
      (now : ℕ) (db : Db)
      → now ≤ until
      → IsSeen sig until db.seen_sigs
      → (record_sig now sig db).0 ≡ false
  unfolding record_sig
  seen_again now db early h =
      let live = rows_where (λ (r : SeenRow). not (ltb r.expires_at now)) db.seen_sigs in
      let kept : IsSeen sig until live =
        rw
          (any_row-where (is_seen_row sig until) (λ r. not (ltb r.expires_at now)) db.seen_sigs
            (λ r e. ground arith))
          h in
      ground (
        arith,
        any_row_imp (is_seen_row sig until) (λ r. text_eq r.sig sig) live (λ r e. ground arith)
            kept,
      )

-- A signature that was not seen is seen for 300 seconds.
pub record_sig-marks :
    (now : ℕ) (sig : Text) (db : Db)
    → (record_sig now sig db).0 ≡ true
    → IsSeen sig (now + max_skew_secs) (record_sig now sig db).1.seen_sigs
unfolding record_sig any_row
record_sig-marks now sig db h =
    let live = rows_where (λ (r : SeenRow). not (ltb r.expires_at now)) db.seen_sigs in
    ground (
      arith,
      text_refl sig,
      any_row-append (is_seen_row sig (now + max_skew_secs)) live
          (record { sig = sig; expires_at = now + max_skew_secs } ∷ []),
    )

KeepsSeen-IsOrder :
    (sig : Text) (until : ℕ) → IsOrder (λ a b. IsSeen sig until a → IsSeen sig until b)
KeepsSeen-IsOrder sig until = record { refl = λ a h. h; trans = λ a b c f g h. g (f h) }

IsSeen-statements :
    (sig : Text) (until now : ℕ)
    → now ≤ until
    → Statements now (λ a b. IsSeen sig until a.seen_sigs → IsSeen sig until b.seen_sigs)
IsSeen-statements sig until now early =
    seen-Statements now (λ a b. IsSeen sig until a → IsSeen sig until b)
      (KeepsSeen-IsOrder sig until) (λ other db h. record_sig-IsSeen sig until now other db early h)

-- Requests at times up to `until`.
abbrev pub AllBy : ℕ → List (ℕ × Request) → Type 0
AllBy until = All (λ (e : ℕ × Request). e.0 ≤ until)

run-IsSeen :
    (env : Env) (sig : Text) (until : ℕ) (reqs : List (ℕ × Request)) (db : Db)
    → AllBy until reqs
    → IsSeen sig until db.seen_sigs
    → IsSeen sig until (run env reqs db).seen_sigs
unfolding Lifecycle.readmit_device
run-IsSeen env sig until reqs db n =
    run-moves_all env reqs db (IsOrder-preorder (λ a. a.seen_sigs) (KeepsSeen-IsOrder sig until))
      (each reqs n) (λ v k x m. Moves-exec _ (λ a h. h))
  where
    each :
        (l : List (ℕ × Request))
        → AllBy until l
        → All
            (λ (e : ℕ × Request).
              Statements e.0 (λ a b. IsSeen sig until a.seen_sigs → IsSeen sig until b.seen_sigs))
            l
    each [] h = tt
    each (e ∷ l) h = (IsSeen-statements sig until e.0 h.0, each l h.1)

pub verify-state : (env : Env) (now : ℕ) (s : Signed) (db : Db) → (verify env now s db).1 ≡ db
unfolding verify ◌>>=◌
verify-state env now s db = ground arith

module _ (env : Env) (now : ℕ) (s : Signed) (db : Db) (sig : Text) where
  -- A rotation that succeeded has marked its signature.
  rotate-IsSeen :
      (vault key : Text) {resp : PushResp}
      → verify env now s db ≡ (ok (vault, key), db)
      → env.b64_decode s.sig_b64 ≡ some sig
      → (Lifecycle.rotate env now s db).0 ≡ ok resp
      → IsSeen sig (now + max_skew_secs) (Lifecycle.rotate env now s db).1.seen_sigs
  unfolding Lifecycle.rotate mark_seen ◌>>=◌
  rotate-IsSeen vault key v d h =
      let marked = record_sig now sig db in
      let after : (Lifecycle.rotate env now s db).1
          ≡ (Lifecycle.rotate_fresh env now vault s marked.1).1 =
        ground arith in
      let fresh : marked.0 ≡ true = ground arith in
      rw after (
        (Moves-rotate_fresh env now (IsSeen-statements sig (now + max_skew_secs) now (omega arith))
            vault s).at
          marked.1 (record_sig-marks now sig db fresh))

  -- No rotation succeeds with a signature that is still seen.
  rotate_refused :
      (until : ℕ) {resp : PushResp}
      → now ≤ until
      → IsSeen sig until db.seen_sigs
      → env.b64_decode s.sig_b64 ≡ some sig
      → ((Lifecycle.rotate env now s db).0 ≢ ok resp)
        × ((Shares.share_rotate env now s db).0 ≢ ok resp)
  unfolding Lifecycle.rotate Shares.share_rotate mark_seen ◌>>=◌
  rotate_refused until early h d = (
    λ e. ground (arith, verify-state env now s db, seen_again sig until now db),
    λ e. ground (arith, verify-state env now s db, seen_again sig until now db),
  )

-- After a rotation that succeeded, and whatever is requested in the next 300 seconds, no request
-- with the same signature rotates the vault or a share in that time.
pub rotation_not_replayed :
    (env : Env) (now later : ℕ) (s again : Signed) (db : Db) (vault key sig : Text)
    {resp resp' : PushResp} (reqs : List (ℕ × Request))
    → verify env now s db ≡ (ok (vault, key), db)
    → env.b64_decode s.sig_b64 ≡ some sig
    → (Lifecycle.rotate env now s db).0 ≡ ok resp
    → AllBy (now + 300) reqs
    → later ≤ now + 300
    → again.sig_b64 ≡ s.sig_b64
    → ((Lifecycle.rotate env later again (run env reqs (Lifecycle.rotate env now s db).1)).0
        ≢ ok resp')
      × ((Shares.share_rotate env later again (run env reqs (Lifecycle.rotate env now s db).1)).0
          ≢ ok resp')
rotation_not_replayed env now later s again db vault key sig reqs v d h n l e =
    let after = (Lifecycle.rotate env now s db).1 in
    rotate_refused env later again (run env reqs after) sig (now + 300) l
      (run-IsSeen env sig (now + 300) reqs after n (rotate-IsSeen env now s db sig vault key v d h))
      (cc (ap env.b64_decode e))
