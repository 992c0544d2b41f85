-- ===== src/Relay/Requests.antt =====
-- The routes of `serve` in src/relay.rs: any sequence of requests, each at its own time.
pub mod Induction
pub mod Runs
pub mod Tables
use sshvault.Prelude.{ℕ, List, [], ◌∷◌}
use sshvault.Prelude.Order.{Text}
use sshvault.Proto.{Signed, RecoverReq}
use sshvault.Relay.Db.{Db}
use sshvault.Relay.Auth.{Env}
use sshvault.Relay.Lifecycle
use sshvault.Relay.Shares
use sshvault.Relay.Views
use sshvault.Relay.Log

pub data Request : Type 0 where
  enroll approve revoke rotate share_grant share_rotate push : Signed → Request
  shares devices wrapped : Text → Text → Text → ℕ → Request
  recover : RecoverReq → Request
  pull : Text → Text → Text → ℕ → ℕ → Request
  ws : Text → Request

module _ (env : Env) where
  -- The tables after a request at the time `now`.
  unfoldable pub serve : ℕ → Request → Db → Db
  serve now (enroll s) db = (Lifecycle.enroll env now s db).1
  serve now (approve s) db = (Lifecycle.approve env now s db).1
  serve now (revoke s) db = (Lifecycle.revoke env now s db).1
  serve now (rotate s) db = (Lifecycle.rotate env now s db).1
  serve now (share_grant s) db = (Shares.share_grant env now s db).1
  serve now (share_rotate s) db = (Shares.share_rotate env now s db).1
  serve now (push s) db = (Log.push env now s db).1
  serve now (shares vault device sig ts) db = (Shares.shares env now vault device sig ts db).1
  serve now (devices vault device sig ts) db = (Views.devices env now vault device sig ts db).1
  serve now (wrapped vault device sig ts) db = (Views.wrapped env now vault device sig ts db).1
  serve now (recover req) db = (Lifecycle.recover env now req db).1
  serve now (pull vault device sig since ts) db = (Log.pull env now vault device sig since ts db).1
  serve now (ws vault) db = Log.subscribe vault db

  unfoldable pub run : List (ℕ × Request) → Db → Db
  run [] db = db
  run ((now, r) ∷ rest) db = run rest (serve now r db)
