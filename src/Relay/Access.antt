-- ===== src/Relay/Access.antt =====
-- Who may change the tables: but for enrolment, recovery and subscriptions, a device whose row says
-- that it is approved and not revoked, and that has signed the request.
pub mod Changes
use mathlib.Core.List.{Memᴰ}
use mathlib.Core.List.Memᴰ.{head, tail}
use sshvault.Prelude.{
  ℕ, ◌≡◌, ◌≢◌, ◌∙◌, ◌⊎◌, refl, ap, sym, subst, Bool, true, false, Option, some, none, List, [], ◌∷◌,
  arith, length, inl, inr, Bool-cases, Option-cases, ◌==◌, not,
}
use sshvault.Prelude.Order.{Text, text_eq, text_eq_iff}
use sshvault.Proto.{Signed, is_fresh}
use sshvault.Proto.Message.{signing_message}
use sshvault.Relay.Db.{Db, DeviceRow, can_sync, device_row, first_row, is_device}
use sshvault.Relay.Handler.{Reply, ok, err, Status, forbidden, ◌>>=◌}
use sshvault.Relay.Auth.{Env, verify}
use sshvault.Relay.Replay.{verify-state}
use sshvault.Relay.Rows.{first_row-fits}
use sshvault.Relay.Lifecycle
use sshvault.Relay.Shares
use sshvault.Relay.Views
use sshvault.Relay.Log
use sshvault.Relay.Requests.{Request, serve}

-- The envelope is in its window, and the device's key has signed it.
pub record IsSigned (env : Env) (now : ℕ) (s : Signed) (vault key : Text) : Type 0 where
  pub sig : Text
  pub fresh : is_fresh now s.ts ≡ true
  pub of_vault : s.vault_id_b64 ≡ vault
  pub by_key : env.b64_decode s.device_pub_b64 ≡ some key
  pub with_sig : env.b64_decode s.sig_b64 ≡ some sig
  pub verified : env.verifies key (signing_message s.ts s.body) sig ≡ true

-- The device has a row that says so.
pub record IsApproved (db : Db) (vault key : Text) : Type 0 where
  pub row : DeviceRow
  pub enrolled : Memᴰ row db.devices
  pub of_vault : row.vault_id ≡ vault
  pub with_key : row.ed25519_pub ≡ key
  pub approved : row.approved ≡ true
  pub not_revoked : row.revoked ≡ false

pub first_row-Memᴰ :
    {A : Type 0} (p : A → Bool) (rows : List A) {r : A} → first_row p rows ≡ some r → Memᴰ r rows
unfolding first_row
first_row-Memᴰ p [] h = absurd (ground arith)
first_row-Memᴰ p (x ∷ rows) {r} h = elim (Bool-cases (p x)) [
  | inl e ↦ head (sym (the_same (sym (rw (first_row, e) refl) ∙ h)))
  | inr e ↦ tail (first_row-Memᴰ p rows (sym (rw (first_row, e) refl) ∙ h))
]
  where
    the_same : some x ≡ some r → x ≡ r
    the_same h = cc

can_sync-IsApproved :
    (db : Db) (vault key : Text) → can_sync db vault key ≡ true → IsApproved db vault key
unfolding can_sync device_row
can_sync-IsApproved db vault key h = elim (Option-cases (device_row db vault key)) [
  | inl e ↦ absurd (ground arith)
  | inr (r, e) ↦
      let fits : is_device vault key r ≡ true = first_row-fits (is_device vault key) db.devices e in
      record {
        row = r;
        enrolled = first_row-Memᴰ (is_device vault key) db.devices e;
        of_vault = (text_eq_iff r.vault_id vault).0 (ground arith);
        with_key = (text_eq_iff r.ed25519_pub key).0 (ground arith);
        approved = ground arith;
        not_revoked = ground arith;
      }
]

module _ (env : Env) (now : ℕ) (s : Signed) (db : Db) where
  verify-IsSigned :
      (vault key : Text)
      → verify env now s db ≡ (ok (vault, key), db)
      → IsSigned env now s vault key
  unfolding verify ◌>>=◌
  verify-IsSigned vault key h = elim (Option-cases (env.b64_decode s.sig_b64)) [
    | inl e ↦ absurd (ground arith)
    | inr (sig, e) ↦ record {
      sig = sig;
      fresh = ground arith;
      of_vault = ground arith;
      by_key = ground arith;
      with_sig = e;
      verified = ground arith;
    }
  ]

  -- Whoever changed the tables had both.
  abbrev pub ByApproved : Type 0
  ByApproved = (vault key : Text) × IsSigned env now s vault key × IsApproved db vault key

  judge :
      (r : Reply (Text × Text) × Db) (after : Db)
      → verify env now s db ≡ r
      → r.1 ≡ db
      → ((st : Status) → verify env now s db ≡ (err st, db) → after ≡ db)
      → ((vault key : Text)
          → verify env now s db ≡ (ok (vault, key), db)
          → can_sync db vault key ≡ false
          → after ≡ db)
      → after ≢ db
      → ByApproved
  judge (err st, db') after e same f g n = absurd (n (f st (e ∙ ap (λ x. (err st, x)) same)))
  judge (ok (vault, key), db') after e same f g n =
      let v = e ∙ ap (λ x. (ok (vault, key), x)) same in
      elim (Bool-cases (can_sync db vault key)) [
        | inl a ↦ (vault, key, verify-IsSigned vault key v, can_sync-IsApproved db vault key a)
        | inr a ↦ absurd (n (g vault key v a))
      ]

  by_approved :
      (after : Db)
      → ((st : Status) → verify env now s db ≡ (err st, db) → after ≡ db)
      → ((vault key : Text)
          → verify env now s db ≡ (ok (vault, key), db)
          → can_sync db vault key ≡ false
          → after ≡ db)
      → after ≢ db
      → ByApproved
  by_approved after = judge (verify env now s db) after refl (verify-state env now s db)

  pub approve_lem : (Lifecycle.approve env now s db).1 ≢ db → ByApproved
  unfolding Lifecycle.approve ◌>>=◌
  approve_lem = by_approved _ (λ st e. ground arith) (λ vault key e a. ground arith)

  pub revoke_lem : (Lifecycle.revoke env now s db).1 ≢ db → ByApproved
  unfolding Lifecycle.revoke ◌>>=◌
  revoke_lem = by_approved _ (λ st e. ground arith) (λ vault key e a. ground arith)

  pub rotate_lem : (Lifecycle.rotate env now s db).1 ≢ db → ByApproved
  unfolding Lifecycle.rotate ◌>>=◌
  rotate_lem = by_approved _ (λ st e. ground arith) (λ vault key e a. ground arith)

  pub share_grant_lem : (Shares.share_grant env now s db).1 ≢ db → ByApproved
  unfolding Shares.share_grant ◌>>=◌
  share_grant_lem = by_approved _ (λ st e. ground arith) (λ vault key e a. ground arith)

  pub share_rotate_lem : (Shares.share_rotate env now s db).1 ≢ db → ByApproved
  unfolding Shares.share_rotate ◌>>=◌
  share_rotate_lem = by_approved _ (λ st e. ground arith) (λ vault key e a. ground arith)

  pub push_lem : (Log.push env now s db).1 ≢ db → ByApproved
  unfolding Log.push ◌>>=◌
  push_lem = by_approved _ (λ st e. ground arith) (λ vault key e a. ground arith)

  pub enroll_lem :
      (Lifecycle.enroll env now s db).1 ≢ db → (vault key : Text) × IsSigned env now s vault key
  unfolding Lifecycle.enroll ◌>>=◌
  enroll_lem n = signed (verify env now s db) refl (verify-state env now s db)
    where
      signed :
          (r : Reply (Text × Text) × Db)
          → verify env now s db ≡ r
          → r.1 ≡ db
          → (vault key : Text) × IsSigned env now s vault key
      signed (err st, db') e same =
          let v = e ∙ ap (λ x. (err st, x)) same in absurd (n (ground arith))
      signed (ok (vault, key), db') e same =
          (vault, key, verify-IsSigned vault key (e ∙ ap (λ x. (ok (vault, key), x)) same))
