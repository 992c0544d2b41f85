-- ===== src/Relay/Requests/Induction.antt =====
-- Every request moves the tables along a preorder along which the write statements move them.
use sshvault.Prelude.{ℕ, ◌+◌, Bool, true, false, List, [], ◌∷◌}
use sshvault.Prelude.Order.{Text}
use sshvault.Proto.{Signed, WrappedFor, WireEntry, RecoverReq}
use sshvault.Relay.Db.{Db}
use sshvault.Relay.Handler.{exec}
use sshvault.Relay.Auth.{
  Env, decode, decode_array, decode_share, verify, record_sig, mark_seen, json_body,
}
use sshvault.Relay.Moves.{Moves, IsPreorder, Moves-bind, moves_rules}
use sshvault.Relay.Lifecycle
use sshvault.Relay.Shares
use sshvault.Relay.Views
use sshvault.Relay.Log

-- Every write statement but that of `recover`, at the time `now`, moves the tables along `R`.
pub record Statements (now : ℕ) (R : Db → Db → Type 0) : Type 0 where
  pub order : IsPreorder R
  pub record_sig : (sig : Text) → Moves R (exec (record_sig now sig))
  pub insert_vault :
      (vault recovery : Text) → Moves R (exec (Lifecycle.insert_vault vault recovery))
  pub enroll_device :
      (vault key x_pub name : Text) (approved : Bool)
      → Moves R (exec (Lifecycle.enroll_device vault key x_pub name approved))
  pub approve_device :
      (vault target wrapped : Text) → Moves R (exec (Lifecycle.approve_device vault target wrapped))
  pub revoke_device : (vault target : Text) → Moves R (exec (Lifecycle.revoke_device vault target))
  pub bump_vault : (vault : Text) (epoch : ℕ) → Moves R (exec (Lifecycle.bump_vault vault epoch))
  pub rewrap_device :
      (vault target wrapped : Text) → Moves R (exec (Lifecycle.rewrap_device vault target wrapped))
  pub raise_epoch :
      (vault share : Text) (epoch : ℕ) → Moves R (exec (Shares.raise_epoch vault share epoch))
  pub admit_member :
      (vault share target wrapped : Text)
      → Moves R (exec (Shares.admit_member vault share target wrapped))
  pub bump_share :
      (vault share : Text) (epoch : ℕ) → Moves R (exec (Shares.bump_share vault share epoch))
  pub insert_share :
      (vault share : Text) (epoch : ℕ) → Moves R (exec (Shares.insert_share vault share epoch))
  pub drop_member :
      (vault share target : Text) → Moves R (exec (Shares.drop_member vault share target))
  pub rewrap_member :
      (vault share target wrapped : Text)
      → Moves R (exec (Shares.rewrap_member vault share target wrapped))
  pub insert_entry :
      (vault entry_id blob share : Text)
      → Moves R (exec (Log.insert_entry vault entry_id blob share))
  pub notify : (vault : Text) (h : ℕ) → Moves R (exec (Log.notify vault h))
  pub subscribe : (vault : Text) (db : Db) → R db (Log.subscribe vault db)

module _ (env : Env) (now : ℕ) {R : Db → Db → Type 0} (o : IsPreorder R) where
  Moves-decode : (b64 : Text) → Moves R (decode env b64)
  unfolding decode
  Moves-decode b64 = search moves_rules

  Moves-decode_array : (n : ℕ) (b64 : Text) → Moves R (decode_array env n b64)
  unfolding decode_array
  Moves-decode_array n b64 = search moves_rules

  Moves-decode_share : (b64 : Text) → Moves R (decode_share env b64)
  unfolding decode_share
  Moves-decode_share b64 = search moves_rules

  Moves-verify : (s : Signed) → Moves R (verify env now s)
  unfolding verify
  Moves-verify s = search (moves_rules, Moves-decode_array) depth 12

ruleset handler_rules =
    (moves_rules, Moves-decode, Moves-decode_array, Moves-decode_share, Moves-verify)

module _ (env : Env) (now : ℕ) {R : Db → Db → Type 0} (k : Statements now R) where
  Moves-mark_seen : (sig : Text) → Moves R (mark_seen env now sig)
  unfolding mark_seen
  Moves-mark_seen sig = search (handler_rules, k.order, k.record_sig) depth 6

  pub Moves-enroll : (s : Signed) → Moves R (Lifecycle.enroll env now s)
  unfolding Lifecycle.enroll json_body
  Moves-enroll s = search (handler_rules, k.order, k.insert_vault, k.enroll_device) depth 20

  pub Moves-approve : (s : Signed) → Moves R (Lifecycle.approve env now s)
  unfolding Lifecycle.approve json_body
  Moves-approve s = search (handler_rules, k.order, k.approve_device) depth 20

  pub Moves-revoke : (s : Signed) → Moves R (Lifecycle.revoke env now s)
  unfolding Lifecycle.revoke json_body
  Moves-revoke s = search (handler_rules, k.order, k.revoke_device) depth 20

  Moves-rewrap_devices :
      (vault : Text) (ws : List WrappedFor) → Moves R (Lifecycle.rewrap_devices env now vault ws)
  unfolding Lifecycle.rewrap_devices
  Moves-rewrap_devices vault [] = search (handler_rules, k.order)
  Moves-rewrap_devices vault (w ∷ ws) =
      Moves-bind k.order _ _ (search (handler_rules, k.order)) (λ target.
        Moves-bind k.order _ _ (search (handler_rules, k.order)) (λ wrapped.
          Moves-bind k.order _ _ (search k.rewrap_device) (λ _. Moves-rewrap_devices vault ws)))

  pub Moves-rotate_fresh :
      (vault : Text) (s : Signed) → Moves R (Lifecycle.rotate_fresh env now vault s)
  unfolding Lifecycle.rotate_fresh json_body
  Moves-rotate_fresh vault s =
      search (handler_rules, k.order, k.bump_vault, Moves-rewrap_devices) depth 16

  pub Moves-rotate : (s : Signed) → Moves R (Lifecycle.rotate env now s)
  unfolding Lifecycle.rotate
  Moves-rotate s = search (handler_rules, k.order, Moves-mark_seen, Moves-rotate_fresh) depth 16

  pub Moves-recover :
      ((vault key x_pub name : Text)
        → Moves R (exec (Lifecycle.readmit_device vault key x_pub name)))
      → (req : RecoverReq) → Moves R (Lifecycle.recover env now req)
  unfolding Lifecycle.recover
  Moves-recover readmit req = search (handler_rules, k.order, readmit) depth 24

  Moves-admit_members :
      (vault share : Text) (ws : List WrappedFor)
      → Moves R (Shares.admit_members env now vault share ws)
  unfolding Shares.admit_members
  Moves-admit_members vault share [] = search (handler_rules, k.order)
  Moves-admit_members vault share (w ∷ ws) =
      Moves-bind k.order _ _ (search (handler_rules, k.order)) (λ target.
        Moves-bind k.order _ _ (search (handler_rules, k.order)) (λ wrapped.
          Moves-bind k.order _ _ (search k.admit_member) (λ _. Moves-admit_members vault share ws)))

  pub Moves-share_grant : (s : Signed) → Moves R (Shares.share_grant env now s)
  unfolding Shares.share_grant json_body
  Moves-share_grant s = search (handler_rules, k.order, k.raise_epoch, Moves-admit_members) depth 20

  Moves-drop_members :
      (vault share : Text) (l : List Text) → Moves R (Shares.drop_members env now vault share l)
  unfolding Shares.drop_members
  Moves-drop_members vault share [] = search (handler_rules, k.order)
  Moves-drop_members vault share (b ∷ l) =
      Moves-bind k.order _ _ (search (handler_rules, k.order)) (λ target.
        Moves-bind k.order _ _ (search k.drop_member) (λ _. Moves-drop_members vault share l))

  Moves-rewrap_members :
      (vault share : Text) (ws : List WrappedFor)
      → Moves R (Shares.rewrap_members env now vault share ws)
  unfolding Shares.rewrap_members
  Moves-rewrap_members vault share [] = search (handler_rules, k.order)
  Moves-rewrap_members vault share (w ∷ ws) =
      Moves-bind k.order _ _ (search (handler_rules, k.order)) (λ target.
        Moves-bind k.order _ _ (search (handler_rules, k.order)) (λ wrapped.
          Moves-bind k.order _ _ (search k.rewrap_member)
            (λ _. Moves-rewrap_members vault share ws)))

  Moves-first_rotation :
      (vault share : Text) (epoch : ℕ) (bumped : Bool)
      → Moves R (Shares.first_rotation env now vault share epoch bumped)
  unfolding Shares.first_rotation
  Moves-first_rotation vault share epoch true = search (handler_rules, k.order)
  Moves-first_rotation vault share epoch false =
      search (handler_rules, k.order, k.insert_share) depth 8

  pub Moves-share_rotate_fresh :
      (vault : Text) (s : Signed) → Moves R (Shares.share_rotate_fresh env now vault s)
  unfolding Shares.share_rotate_fresh json_body
  Moves-share_rotate_fresh vault s =
      search
        (
          handler_rules, k.order, k.bump_share, Moves-first_rotation, Moves-drop_members,
          Moves-rewrap_members,
        )
        depth 20

  pub Moves-share_rotate : (s : Signed) → Moves R (Shares.share_rotate env now s)
  unfolding Shares.share_rotate
  Moves-share_rotate s =
      search (handler_rules, k.order, Moves-mark_seen, Moves-share_rotate_fresh) depth 16

  Moves-share_of : (b64 : Text) → Moves R (Log.share_of env now b64)
  unfolding Log.share_of
  Moves-share_of [] = search (handler_rules, k.order)
  Moves-share_of (c ∷ s) = search (handler_rules, k.order)

  pub Moves-store_entries :
      (vault : Text) (stored : ℕ) (es : List WireEntry)
      → Moves R (Log.store_entries env now vault stored es)
  unfolding Log.store_entries
  Moves-store_entries vault stored [] = search (handler_rules, k.order)
  Moves-store_entries vault stored (e ∷ es) =
      search
        (
          handler_rules,
          k.order,
          Moves-share_of,
          k.insert_entry,
          λ (n : ℕ). Moves-store_entries vault (stored + n) es,
        )
        depth 14

  pub Moves-push : (s : Signed) → Moves R (Log.push env now s)
  unfolding Log.push json_body
  Moves-push s = search (handler_rules, k.order, Moves-store_entries, k.notify) depth 20

  module _ (vault device sig : Text) where
    pub Moves-pull : (since ts : ℕ) → Moves R (Log.pull env now vault device sig since ts)
    unfolding Log.pull
    Moves-pull since ts = search (handler_rules, k.order) depth 14

    pub Moves-shares : (ts : ℕ) → Moves R (Shares.shares env now vault device sig ts)
    unfolding Shares.shares
    Moves-shares ts = search (handler_rules, k.order) depth 14

    pub Moves-devices : (ts : ℕ) → Moves R (Views.devices env now vault device sig ts)
    unfolding Views.devices
    Moves-devices ts = search (handler_rules, k.order) depth 14

    pub Moves-wrapped : (ts : ℕ) → Moves R (Views.wrapped env now vault device sig ts)
    unfolding Views.wrapped
    Moves-wrapped ts = search (handler_rules, k.order) depth 14
