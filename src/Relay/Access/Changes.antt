-- ===== src/Relay/Access/Changes.antt =====
-- Which requests change the tables, and on whose word.
use mathlib.Core.List.{Memᴰ}
use sshvault.Prelude.{ℕ, ◌≡◌, ◌≢◌, true, some, arith, inl, inr, Bool-cases, Option-cases}
use sshvault.Prelude.Order.{Text, text_eq, text_eq_iff}
use sshvault.Proto.{RecoverReq}
use sshvault.Relay.Db.{Db, VaultRow, first_row}
use sshvault.Relay.Handler.{or_raise, guard, query, ◌>>=◌}
use sshvault.Relay.Auth.{Env, decode_array}
use sshvault.Relay.Rows.{first_row-fits}
use sshvault.Relay.Access.{
  IsSigned, ByApproved, first_row-Memᴰ, approve_lem, revoke_lem, rotate_lem, share_grant_lem,
  share_rotate_lem, push_lem, enroll_lem,
}
use sshvault.Relay.Replay.{verify-state}
use sshvault.Relay.Lifecycle
use sshvault.Relay.Shares
use sshvault.Relay.Views
use sshvault.Relay.Views.{signed_query}
use sshvault.Relay.Log
use sshvault.Relay.Requests.{Request, serve}

-- A vault has the recovery key, and that key has signed the new device's key.
pub record IsRecovery (env : Env) (req : RecoverReq) (db : Db) : Type 0 where
  pub recovery_pub : Text
  pub device_key : Text
  pub sig : Text
  pub vault : VaultRow
  pub created : Memᴰ vault db.vaults
  pub of_vault : vault.recovery_pub ≡ recovery_pub
  pub by_key : env.b64_decode req.recovery_pub_b64 ≡ some recovery_pub
  pub for_key : env.b64_decode req.ed25519_pub_b64 ≡ some device_key
  pub with_sig : env.b64_decode req.sig_b64 ≡ some sig
  pub verified : env.verifies recovery_pub device_key sig ≡ true

-- On whose word a request may change the tables.
abbrev pub IsAuthorised : Env → ℕ → Db → Request → Type 0
IsAuthorised env now db (Request.enroll s) = (vault key : Text) × IsSigned env now s vault key
IsAuthorised env now db (Request.approve s) = ByApproved env now s db
IsAuthorised env now db (Request.revoke s) = ByApproved env now s db
IsAuthorised env now db (Request.rotate s) = ByApproved env now s db
IsAuthorised env now db (Request.share_grant s) = ByApproved env now s db
IsAuthorised env now db (Request.share_rotate s) = ByApproved env now s db
IsAuthorised env now db (Request.push s) = ByApproved env now s db
IsAuthorised env now db (Request.shares vault device sig ts) = ⊥
IsAuthorised env now db (Request.devices vault device sig ts) = ⊥
IsAuthorised env now db (Request.wrapped vault device sig ts) = ⊥
IsAuthorised env now db (Request.recover req) = IsRecovery env req db
IsAuthorised env now db (Request.pull vault device sig since ts) = ⊥
IsAuthorised env now db (Request.ws vault) = Unit

module _ (env : Env) (now : ℕ) (db : Db) where
  recover_lem :
      (req : RecoverReq) → (Lifecycle.recover env now req db).1 ≢ db → IsRecovery env req db
  unfolding Lifecycle.recover ◌>>=◌ decode_array or_raise guard query
  recover_lem req n = elim (Option-cases (env.b64_decode req.recovery_pub_b64)) [
    | inl e ↦ absurd (n (ground arith))
    | inr (recovery_pub, e) ↦ elim (Option-cases (env.b64_decode req.ed25519_pub_b64)) [
      | inl f ↦ absurd (n (ground arith))
      | inr (key, f) ↦ elim (Option-cases (env.b64_decode req.sig_b64)) [
        | inl g ↦ absurd (n (ground arith))
        | inr (sig, g) ↦ elim (Bool-cases (env.verifies recovery_pub key sig)) [
          | inr v ↦ absurd (n (ground arith))
          | inl v ↦
              let fits = λ (r : VaultRow). text_eq r.recovery_pub recovery_pub in
              elim (Option-cases (first_row fits db.vaults)) [
                | inl w ↦ absurd (n (ground arith))
                | inr (row, w) ↦ record {
                  recovery_pub = recovery_pub;
                  device_key = key;
                  sig = sig;
                  vault = row;
                  created = first_row-Memᴰ fits db.vaults w;
                  of_vault =
                      (text_eq_iff row.recovery_pub recovery_pub).0
                        (first_row-fits fits db.vaults w);
                  by_key = e;
                  for_key = f;
                  with_sig = g;
                  verified = v;
                }
              ]
        ]
      ]
    ]
  ]

  pull_lem :
      (vault device sig : Text) (since ts : ℕ)
      → (Log.pull env now vault device sig since ts db).1 ≡ db
  unfolding Log.pull ◌>>=◌
  pull_lem vault device sig since ts =
      ground (arith, verify-state env now (Log.pull_signed env now vault device sig since ts) db)

  shares_lem :
      (vault device sig : Text) (ts : ℕ) → (Shares.shares env now vault device sig ts db).1 ≡ db
  unfolding Shares.shares ◌>>=◌
  shares_lem vault device sig ts =
      ground (arith, verify-state env now (signed_query "shares" vault device sig ts) db)

  devices_lem :
      (vault device sig : Text) (ts : ℕ) → (Views.devices env now vault device sig ts db).1 ≡ db
  unfolding Views.devices ◌>>=◌
  devices_lem vault device sig ts =
      ground (arith, verify-state env now (signed_query "devices" vault device sig ts) db)

  wrapped_lem :
      (vault device sig : Text) (ts : ℕ) → (Views.wrapped env now vault device sig ts db).1 ≡ db
  unfolding Views.wrapped ◌>>=◌
  wrapped_lem vault device sig ts =
      ground (arith, verify-state env now (signed_query "wrapped" vault device sig ts) db)

  -- A request that changes the tables is authorised: approving, revoking, rotating, granting and
  -- pushing by a device that has signed the request in its window, and that has a row of the vault
  -- that says it is approved and not revoked; enrolment by a key that has signed the request;
  -- recovery by the recovery key of a vault, which has signed the new key. A request that only
  -- reads changes nothing, and nothing is said of subscriptions.
  pub serve-IsAuthorised : (r : Request) → serve env now r db ≢ db → IsAuthorised env now db r
  unfolding serve
  serve-IsAuthorised (Request.enroll s) n = enroll_lem env now s db n
  serve-IsAuthorised (Request.approve s) n = approve_lem env now s db n
  serve-IsAuthorised (Request.revoke s) n = revoke_lem env now s db n
  serve-IsAuthorised (Request.rotate s) n = rotate_lem env now s db n
  serve-IsAuthorised (Request.share_grant s) n = share_grant_lem env now s db n
  serve-IsAuthorised (Request.share_rotate s) n = share_rotate_lem env now s db n
  serve-IsAuthorised (Request.push s) n = push_lem env now s db n
  serve-IsAuthorised (Request.shares vault device sig ts) n = n (shares_lem vault device sig ts)
  serve-IsAuthorised (Request.devices vault device sig ts) n = n (devices_lem vault device sig ts)
  serve-IsAuthorised (Request.wrapped vault device sig ts) n = n (wrapped_lem vault device sig ts)
  serve-IsAuthorised (Request.recover req) n = recover_lem req n
  serve-IsAuthorised (Request.pull vault device sig since ts) n =
      n (pull_lem vault device sig since ts)
  serve-IsAuthorised (Request.ws vault) n = tt
