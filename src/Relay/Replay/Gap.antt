-- ===== src/Relay/Replay/Gap.antt =====
-- A request that was signed ahead of the relay's time outlives its row in the replay cache.
use sshvault.Prelude.{
  ℕ, ◌+◌, ◌≤◌, ◌<◌, ◌^◌, ◌≡◌, refl, subst, sym, Bool, true, false, ◌&&◌, not, some, List, [], ◌∷◌,
  All, arith, ltb, inl, inr, Bool-cases,
}
use sshvault.Prelude.Order.{Text, text_eq, text_eq_iff}
use sshvault.Proto.{is_fresh, max_skew_secs}
use sshvault.Relay.Db.{Db, SeenRow, any_row, rows_where}
use sshvault.Relay.Handler.{ok, ◌>>=◌}
use sshvault.Relay.Rows.{any_row-append}
use sshvault.Relay.Auth.{Env, record_sig, mark_seen}
use sshvault.Relay.Replay.{IsSeen, AllBy, record_sig-IsSeen, seen_again, record_sig-marks}
use sshvault.Relay.Lifecycle
use sshvault.Relay.Moves.{Moves-exec}
use sshvault.Relay.Requests.{Request, run}
use sshvault.Relay.Requests.Runs.{run-moves_all}
use sshvault.Relay.Requests.Induction.{Statements}
use sshvault.Relay.Requests.Tables.{IsOrder, IsOrder-preorder, seen-Statements}

-- A row of the signature that is kept for longer.
abbrev is_late : Text → ℕ → SeenRow → Bool
is_late sig until r = text_eq r.sig sig && ltb until r.expires_at

abbrev live_at : ℕ → List SeenRow → List SeenRow
live_at now rows = rows_where (λ (r : SeenRow). not (ltb r.expires_at now)) rows

-- The signature is seen until then, and no longer.
abbrev IsHeld : Text → ℕ → List SeenRow → Type 0
IsHeld sig until rows = IsSeen sig until rows × (any_row (is_late sig until) rows ≡ false)

none_where :
    (p q : SeenRow → Bool) (rows : List SeenRow)
    → any_row p rows ≡ false
    → any_row p (rows_where q rows) ≡ false
unfolding any_row rows_where
none_where p q [] h = refl
none_where p q (r ∷ rows) h = ground (arith, none_where p q rows)

none_late :
    (sig : Text) (until : ℕ) (rows : List SeenRow)
    → any_row (λ (r : SeenRow). text_eq r.sig sig) rows ≡ false
    → any_row (is_late sig until) rows ≡ false
unfolding any_row
none_late sig until [] h = refl
none_late sig until (r ∷ rows) h = ground (arith, none_late sig until rows)

-- What is not kept past `until` is gone later.
gone_later :
    (sig : Text) (until later : ℕ) (rows : List SeenRow)
    → until < later
    → any_row (is_late sig until) rows ≡ false
    → any_row (λ (r : SeenRow). text_eq r.sig sig) (live_at later rows) ≡ false
unfolding any_row rows_where
gone_later sig until later [] l h = refl
gone_later sig until later (r ∷ rows) l h = ground (arith, gone_later sig until later rows)

-- A signature that was not seen is held for 300 seconds.
record_sig-IsHeld :
    (now : ℕ) (sig : Text) (db : Db)
    → (record_sig now sig db).0 ≡ true
    → IsHeld sig (now + 300) (record_sig now sig db).1.seen_sigs
unfolding record_sig any_row
record_sig-IsHeld now sig db h =
    let live = live_at now db.seen_sigs in
    let new : any_row (λ (r : SeenRow). text_eq r.sig sig) live ≡ false = ground arith in
    (
      record_sig-marks now sig db h,
      ground (
        arith,
        none_late sig (now + 300) live new,
        any_row-append (is_late sig (now + 300)) live
            (record { sig = sig; expires_at = now + max_skew_secs } ∷ []),
      ),
    )

module _ (sig : Text) (until : ℕ) where
  same_late :
      (now : ℕ) (db : Db)
      → now ≤ until
      → IsHeld sig until db.seen_sigs
      → any_row (is_late sig until) (record_sig now sig db).1.seen_sigs ≡ false
  unfolding record_sig
  same_late now db early (seen, none) = ground (
    arith,
    seen_again sig until now db early seen,
    none_where (is_late sig until) (λ r. not (ltb r.expires_at now)) db.seen_sigs none,
  )

  other_late :
      (now : ℕ) (other : Text) (db : Db)
      → text_eq other sig ≡ false
      → any_row (is_late sig until) db.seen_sigs ≡ false
      → any_row (is_late sig until) (record_sig now other db).1.seen_sigs ≡ false
  unfolding record_sig any_row
  other_late now other db e none = ground (
    arith,
    none_where (is_late sig until) (λ r. not (ltb r.expires_at now)) db.seen_sigs none,
    any_row-append (is_late sig until) (live_at now db.seen_sigs)
        (record { sig = other; expires_at = now + max_skew_secs } ∷ []),
  )

  IsHeld-record_sig :
      (now : ℕ) (other : Text) (db : Db)
      → now ≤ until
      → IsHeld sig until db.seen_sigs
      → IsHeld sig until (record_sig now other db).1.seen_sigs
  IsHeld-record_sig now other db early held = (
    record_sig-IsSeen sig until now other db early held.0,
    elim (Bool-cases (text_eq other sig)) [
      | inl e ↦
          subst (λ s. any_row (is_late sig until) (record_sig now s db).1.seen_sigs ≡ false)
            (sym ((text_eq_iff other sig).0 e)) (same_late now db early held)
      | inr e ↦ other_late now other db e held.1
    ],
  )

  Held-IsOrder : IsOrder (λ a b. IsHeld sig until a → IsHeld sig until b)
  Held-IsOrder = record { refl = λ a h. h; trans = λ a b c f g h. g (f h) }

  run-IsHeld :
      (env : Env) (reqs : List (ℕ × Request)) (db : Db)
      → AllBy until reqs
      → IsHeld sig until db.seen_sigs
      → IsHeld sig until (run env reqs db).seen_sigs
  unfolding Lifecycle.readmit_device
  run-IsHeld env reqs db n =
      run-moves_all env reqs db (IsOrder-preorder (λ a. a.seen_sigs) Held-IsOrder) (each reqs n)
        (λ v k x m. Moves-exec _ (λ a h. h))
    where
      each :
          (l : List (ℕ × Request))
          → AllBy until l
          → All
              (λ (e : ℕ × Request).
                Statements e.0 (λ a b. IsHeld sig until a.seen_sigs → IsHeld sig until b.seen_sigs))
              l
      each [] h = tt
      each (e ∷ l) h = (
        seen-Statements e.0 (λ a b. IsHeld sig until a → IsHeld sig until b) Held-IsOrder
            (λ other db k. IsHeld-record_sig e.0 other db h.0 k),
        each l h.1,
      )

  -- Once that time is past, the signature is taken for a new one.
  new_again :
      (later : ℕ) (db : Db)
      → until < later
      → IsHeld sig until db.seen_sigs
      → (record_sig later sig db).0 ≡ true
  unfolding record_sig
  new_again later db l held = ground (arith, gone_later sig until later db.seen_sigs l held.1)

module _ (env : Env) (sig_b64 sig : Text) (decodes : env.b64_decode sig_b64 ≡ some sig) where
  marks :
      (now : ℕ) (db : Db)
      → (mark_seen env now sig_b64 db).0 ≡ ok true
      → ((record_sig now sig db).0 ≡ true)
        × ((mark_seen env now sig_b64 db).1 ≡ (record_sig now sig db).1)
  unfolding mark_seen ◌>>=◌
  marks now db h = (ground arith, ground arith)

  marked :
      (now : ℕ) (db : Db)
      → (record_sig now sig db).0 ≡ true
      → (mark_seen env now sig_b64 db).0 ≡ ok true
  unfolding mark_seen ◌>>=◌
  marked now db h = ground arith

ahead_fresh :
    (now later ts : ℕ)
    → now + 1000 < 2 ^ 63
    → now < ts
    → ts ≤ now + 300
    → now + 300 < later
    → later ≤ ts + 300
    → (is_fresh now ts ≡ true) × (is_fresh later ts ≡ true)
unfolding is_fresh
ahead_fresh now later ts h1 h2 h3 h4 h5 = (ground arith, ground arith)

-- A signature that any relay has taken for a new one, on a request whose timestamp is ahead of the
-- relay's time, is taken for a new one again from the 301st second on, while the timestamp is still
-- in the window, whatever was requested at times up to 300 seconds after the first; the relay's time
-- is not near the end of an `i64`.
pub replay_gap :
    (env : Env) (now later ts : ℕ) (sig_b64 sig : Text) (db : Db) (reqs : List (ℕ × Request))
    → now + 1000 < 2 ^ 63
    → now < ts
    → ts ≤ now + 300
    → now + 300 < later
    → later ≤ ts + 300
    → env.b64_decode sig_b64 ≡ some sig
    → (mark_seen env now sig_b64 db).0 ≡ ok true
    → AllBy (now + 300) reqs
    → (is_fresh now ts ≡ true)
      × (is_fresh later ts ≡ true)
      × ((mark_seen env later sig_b64 (run env reqs (mark_seen env now sig_b64 db).1)).0 ≡ ok true)
replay_gap env now later ts sig_b64 sig db reqs h1 h2 h3 h4 h5 d m n =
    let (new, state) = marks env sig_b64 sig d now db m in
    let (first, second) = ahead_fresh now later ts h1 h2 h3 h4 h5 in
    let after = (mark_seen env now sig_b64 db).1 in
    let held = run-IsHeld sig (now + 300) env reqs after n (
      subst (λ (x : Db). IsHeld sig (now + 300) x.seen_sigs) (sym state)
        (record_sig-IsHeld now sig db new)) in
    (
      first,
      second,
      marked env sig_b64 sig d later (run env reqs after)
          (new_again sig (now + 300) later (run env reqs after) h4 held),
    )
