-- ===== src/Relay/Revocation.antt =====
-- Revocation is sticky: whatever is requested after it, short of a recovery, the device stays out.
use mathlib.Core.Option
use sshvault.Prelude.{
  ℕ, ◌≡◌, refl, Bool, true, false, ◌&&◌, not, Option, none, some, List, [], ◌∷◌, All, arith,
  if◌then◌else◌,
}
use sshvault.Prelude.Order.{Text}
use sshvault.Proto.{Signed, RevokeReq, PushResp}
use sshvault.Relay.Db.{
  Db, DeviceRow, is_device, device_row, can_sync, any_row, first_row, update_where, upsert,
}
use sshvault.Relay.Rows.{or_else, none-any_row, first_row-fits, first_row-update, first_row-upsert}
use sshvault.Relay.Lifecycle
use sshvault.Relay.Handler.{ok, ◌>>=◌}
use sshvault.Relay.Auth.{Env, decode, json_body, verify}
use sshvault.Relay.Requests.{Request, run}
use sshvault.Relay.Requests.Runs.{NotRecover, run-moves}
use sshvault.Relay.Requests.Induction.{Statements}
use sshvault.Relay.Requests.Tables.{IsOrder, IsOrder-preorder, devices-Statements}

-- The row of a revoked device: not approved, and its wrapped key is gone.
abbrev pub IsLocked : Option DeviceRow → Type 0
IsLocked none = ⊥
IsLocked (some r) = (r.revoked ≡ true) × (r.approved ≡ false) × (r.wrapped_key ≡ none)

-- What a revocation makes of a row.
abbrev locked_row : DeviceRow → DeviceRow
locked_row r = record r { revoked = true; approved = false; wrapped_key = none }

abbrev lookup : Text → Text → List DeviceRow → Option DeviceRow
lookup vault key = first_row (is_device vault key)

IsLocked-if :
    (b : Bool) (x y : Option DeviceRow) → IsLocked x → IsLocked y → IsLocked (if b then x else y)
IsLocked-if true x y hx hy = hx
IsLocked-if false x y hx hy = hy

IsLocked-map :
    (f : DeviceRow → DeviceRow) (o : Option DeviceRow)
    → ((r : DeviceRow) → IsLocked (some r) → IsLocked (some (f r)))
    → IsLocked o
    → IsLocked (Option.map f o)
IsLocked-map f none k h = h
IsLocked-map f (some r) k h = k r h

IsLocked-or_else : (o e : Option DeviceRow) → IsLocked o → IsLocked (or_else o e)
IsLocked-or_else none e h = elim h [ ]
IsLocked-or_else (some r) e h = h

module _ (vault key : Text) where
  abbrev KeepsLocked : List DeviceRow → List DeviceRow → Type 0
  KeepsLocked a b = IsLocked (lookup vault key a) → IsLocked (lookup vault key b)

  KeepsLocked-IsOrder : IsOrder KeepsLocked
  KeepsLocked-IsOrder = record { refl = λ a h. h; trans = λ a b c f g h. g (f h) }

  -- An update that keeps the keys and what is locked of each row.
  update_keeps :
      (q : DeviceRow → Bool) (f : DeviceRow → DeviceRow) (rows : List DeviceRow)
      → ((r : DeviceRow) → is_device vault key (f r) ≡ is_device vault key r)
      → ((r : DeviceRow) → IsLocked (some r) → IsLocked (some (if q r then f r else r)))
      → KeepsLocked rows (update_where q f rows)
  update_keeps q f rows keeps k h =
      rw (first_row-update (is_device vault key) q f keeps rows)
        (IsLocked-map (λ r. if q r then f r else r) (lookup vault key rows) k h)

  upsert_keeps :
      (q : DeviceRow → Bool) (f : DeviceRow → DeviceRow) (row : DeviceRow) (rows : List DeviceRow)
      → ((r : DeviceRow) → is_device vault key (f r) ≡ is_device vault key r)
      → ((r : DeviceRow) → IsLocked (some r) → IsLocked (some (if q r then f r else r)))
      → KeepsLocked rows (upsert q f row rows)
  upsert_keeps q f row rows keeps k h =
      rw (first_row-upsert (is_device vault key) q f row rows keeps) (
        IsLocked-if (any_row q rows) _ _
          (IsLocked-map (λ r. if q r then f r else r) (lookup vault key rows) k h)
          (IsLocked-or_else (lookup vault key rows) _ h))

  enroll_keeps :
      (v k x n : Text) (a : Bool) (db : Db)
      → KeepsLocked db.devices (Lifecycle.enroll_device v k x n a db).1.devices
  unfolding Lifecycle.enroll_device
  enroll_keeps v k x n a db = upsert_keeps _ _ _ db.devices (λ r. refl) (λ r l. ground arith)

  approve_keeps :
      (v t w : Text) (db : Db)
      → KeepsLocked db.devices (Lifecycle.approve_device v t w db).1.devices
  unfolding Lifecycle.approve_device
  approve_keeps v t w db = update_keeps _ _ db.devices (λ r. refl) (λ r l. ground arith)

  revoke_keeps :
      (v t : Text) (db : Db) → KeepsLocked db.devices (Lifecycle.revoke_device v t db).1.devices
  unfolding Lifecycle.revoke_device
  revoke_keeps v t db = update_keeps _ _ db.devices (λ r. refl) (λ r l. ground arith)

  rewrap_keeps :
      (v t w : Text) (db : Db) → KeepsLocked db.devices (Lifecycle.rewrap_device v t w db).1.devices
  unfolding Lifecycle.rewrap_device
  rewrap_keeps v t w db = update_keeps _ _ db.devices (λ r. refl) (λ r l. ground arith)

  locked_statements : (now : ℕ) → Statements now (λ a b. KeepsLocked a.devices b.devices)
  locked_statements now =
      devices-Statements now KeepsLocked KeepsLocked-IsOrder enroll_keeps approve_keeps revoke_keeps
        rewrap_keeps

abbrev pub NoRecover : List (ℕ × Request) → Type 0
NoRecover = All (λ (e : ℕ × Request). NotRecover e.1)

-- A locked device stays locked through any requests but recoveries.
pub run-IsLocked :
    (env : Env) (reqs : List (ℕ × Request)) (db : Db) (vault key : Text)
    → NoRecover reqs
    → IsLocked (device_row db vault key)
    → IsLocked (device_row (run env reqs db) vault key)
unfolding device_row
run-IsLocked env reqs db vault key n =
    run-moves env reqs db (IsOrder-preorder (λ a. a.devices) (KeepsLocked-IsOrder vault key))
      (each reqs n)
  where
    each :
        (l : List (ℕ × Request))
        → NoRecover l
        → All
            (λ (e : ℕ × Request).
              Statements e.0 (λ a b. KeepsLocked vault key a.devices b.devices) × NotRecover e.1)
            l
    each [] h = tt
    each (e ∷ l) h = ((locked_statements vault key e.0, h.0), each l h.1)

locked-can_sync :
    (db : Db) (vault key : Text)
    → IsLocked (device_row db vault key)
    → can_sync db vault key ≡ false
unfolding can_sync
locked-can_sync db vault key h = by_row (device_row db vault key) h
  where
    by_row :
        (o : Option DeviceRow)
        → IsLocked o
        → elim o as (λ _. Bool) [ none ↦ false | some r ↦ r.approved && not r.revoked ] ≡ false
    by_row none h = refl
    by_row (some r) h = ground arith

module _ (env : Env) (now : ℕ) (s : Signed) (db : Db) (vault key target : Text) (req : RevokeReq)
    (verified : verify env now s db ≡ (ok (vault, key), db))
    (parsed : env.json_revoke s.body ≡ some req)
    (decoded : env.b64_decode req.target_pub_b64 ≡ some target) where
  -- What a revocation does, past its checks.
  revoke_lem :
      {resp : PushResp}
      → (Lifecycle.revoke env now s db).0 ≡ ok resp
      → ((Lifecycle.revoke env now s db).1 ≡ (Lifecycle.revoke_device vault target db).1)
        × (any_row (is_device vault target) db.devices ≡ true)
  unfolding Lifecycle.revoke decode json_body ◌>>=◌ Lifecycle.revoke_device
  revoke_lem h = ground arith

  revoke_locks :
      {resp : PushResp}
      → (Lifecycle.revoke env now s db).0 ≡ ok resp
      → IsLocked (device_row (Lifecycle.revoke env now s db).1 vault target)
  unfolding device_row Lifecycle.revoke_device
  revoke_locks h =
      let (after, affected) = revoke_lem h in
      rw
        (
          after,
          first_row-update (is_device vault target) (is_device vault target) locked_row (λ r. refl)
              db.devices,
        )
        (by_row (lookup vault target db.devices) refl affected)
    where
      by_row :
          (o : Option DeviceRow)
          → lookup vault target db.devices ≡ o
          → any_row (is_device vault target) db.devices ≡ true
          → IsLocked (Option.map (λ r. if is_device vault target r then locked_row r else r) o)
      by_row none e a = cc (none-any_row (is_device vault target) db.devices e)
      by_row (some r) e a =
          ground (arith, first_row-fits (is_device vault target) db.devices {r = r} e)

-- After a revocation that succeeded, and whatever is requested then, at any times, but a recovery,
-- the revoked device cannot sync.
pub revoked_device_stays_out :
    (env : Env) (now : ℕ) (s : Signed) (db : Db) (vault key target : Text) (req : RevokeReq)
    {resp : PushResp} (reqs : List (ℕ × Request))
    → verify env now s db ≡ (ok (vault, key), db)
    → env.json_revoke s.body ≡ some req
    → env.b64_decode req.target_pub_b64 ≡ some target
    → (Lifecycle.revoke env now s db).0 ≡ ok resp
    → NoRecover reqs
    → can_sync (run env reqs (Lifecycle.revoke env now s db).1) vault target ≡ false
revoked_device_stays_out env now s db vault key target req reqs v p d h n =
    locked-can_sync _ vault target (
      run-IsLocked env reqs _ vault target n
        (revoke_locks env now s db vault key target req v p d h))
