-- ===== src/Sync/Daemon.antt =====
-- `syncd` of src/sync.rs: which errors end it, when it syncs, and how long it waits to reconnect.
-- The sockets and the clock are left out: what they bring is a sequence of events.
use sshvault.Prelude.{
  ℕ, ◌*◌, Bool, true, false, Option, none, some, List, [], ◌∷◌, leb, ltb, if◌then◌else◌,
}
use sshvault.Prelude.Order.{Text}
use sshvault.Prelude.Texts.{trim}
use sshvault.Prelude.Digits.{parse_uint}
use sshvault.Vault.Fail.{Result, done, fail, corrupt}
use sshvault.Vault.Store.{Vault, Disk, Codec, replay_log}
use sshvault.Sync.{
  SyncError, no_relay, http, rejected, vault_error, Synced, synced, broken, Client, Relay,
  sync_once,
}

-- The errors that another round may not meet.
unfoldable pub transient : SyncError → Bool
transient http = true
transient (rejected status) = leb 500 status
transient no_relay = false
transient (vault_error e) = false

-- `reload`: the metadata is read again, and the log replayed.
unfoldable pub reload : Codec → Vault → Disk → Result (Vault × Disk)
unfolding replay_log
reload c v d = elim d.meta [
  | none ↦ fail corrupt
  | some meta ↦ replay_log c (record v { meta = meta }) d
]

-- `Duration`s in seconds: the wait before the next attempt to connect.
unfoldable pub next_backoff : ℕ → ℕ
next_backoff secs = if ltb 60 (secs * 2) then 60 else secs * 2

-- How a connection went: it was not made, or it ended, so many seconds after the attempt began.
pub data Attempt : Type 0 where
  failed : Attempt
  dropped : ℕ → Attempt

abbrev pub healthy_conn : ℕ
healthy_conn = 30

-- The wait, if there is one, and the backoff after it.
unfoldable pub after_attempt : ℕ → Attempt → Option ℕ × ℕ
unfolding next_backoff
after_attempt secs failed = (some secs, next_backoff secs)
after_attempt secs (dropped held) =
    if leb healthy_conn held then (none, 1) else (some secs, next_backoff secs)

-- The waits between attempts, in turn; the first backoff is 1.
unfoldable pub waits : ℕ → List Attempt → List (Option ℕ)
unfolding after_attempt
waits secs [] = []
waits secs (a ∷ rest) = let (wait, next) = after_attempt secs a in wait ∷ waits next rest

-- What a socket or the clock brings while the connection stands.
pub data Message : Type 0 where
  text : Text → Message
  other tick closed : Message

-- Whether a round follows: a head that is not past the cursor is an echo.
unfoldable pub is_stale : ℕ → Text → Bool
unfolding trim parse_uint
is_stale cursor head = elim (parse_uint 18446744073709551615 (trim head)) [
  | none ↦ true
  | some h ↦ ltb cursor h
]

unfoldable pub wants_round : ℕ → Message → Bool
unfolding is_stale
wants_round cursor (text head) = is_stale cursor head
wants_round cursor other = false
wants_round cursor tick = true
wants_round cursor closed = false

unfoldable pub swallow : Bool → SyncError → Vault → Disk → Synced (Unit {0}) × Vault × Disk
swallow true e v d = (synced tt, v, d)
swallow false e v d = (broken e, v, d)

-- What the daemon goes on with after a round: an error that may pass is swallowed.
unfoldable pub settle : Synced (ℕ × ℕ) × Vault × Disk → Synced (Unit {0}) × Vault × Disk
unfolding transient swallow
settle (synced n, v, d) = (synced tt, v, d)
settle (broken e, v, d) = swallow (transient e) e v d

module _ (client : Client) (c : Codec) (relay : Relay) where
  unfoldable pub reloaded : Result (Vault × Disk) → Vault → Disk → Synced (Unit {0}) × Vault × Disk
  unfolding sync_once settle
  reloaded (fail e) v d = (broken (vault_error e), v, d)
  reloaded (done (v', d')) v d = settle (sync_once client c relay v' d')

  unfoldable pub round : Vault → Disk → Synced (Unit {0}) × Vault × Disk
  unfolding reload reloaded
  round v d = reloaded (reload c v d) v d
