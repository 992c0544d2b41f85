-- ===== src/Sync/Backoff.antt =====
-- How long the daemon waits, and which errors it gives up on.
use sshvault.Prelude.{
  ℕ, zero, suc, ◌≤◌, ◌<◌, ◌≡◌, ◌⊎◌, refl, ap, sym, subst, Bool, true, false, Option, none, some,
  List, [], ◌∷◌, All, arith, drop, leb, ltb, inl, inr, Bool-cases,
}
use sshvault.Vault.Fail.{VaultError, done, fail}
use sshvault.Vault.Store.{Vault, Disk, Codec}
use sshvault.Sync.{
  SyncError, no_relay, http, rejected, vault_error, Synced, synced, broken, Client, Relay,
  sync_once,
}
use sshvault.Sync.Daemon.{reload, next_backoff, Attempt, failed, dropped, after_attempt, waits}

-- A wait, if there is one, is of a second at least and of a minute at most.
abbrev pub InRange : Option ℕ → Type 0
InRange none = Unit
InRange (some secs) = (1 ≤ secs) × (secs ≤ 60)

-- An attempt after which the daemon waits.
abbrev pub short_lived : Attempt → Bool
short_lived failed = true
short_lived (dropped held) = ltb held 30

next_range : (secs : ℕ) → 1 ≤ secs → secs ≤ 60 → (1 ≤ next_backoff secs) × (next_backoff secs ≤ 60)
unfolding next_backoff
next_range secs lo hi = (ground arith, ground arith)

-- What an attempt does to a backoff in range.
kept_range :
    (secs : ℕ) (a : Attempt)
    → 1 ≤ secs
    → secs ≤ 60
    → InRange (after_attempt secs a).0
      × (1 ≤ (after_attempt secs a).1)
      × ((after_attempt secs a).1 ≤ 60)
unfolding after_attempt
kept_range secs failed lo hi = let (l, h) = next_range secs lo hi in ((lo, hi), l, h)
kept_range secs (dropped held) lo hi = elim (Bool-cases (leb 30 held)) [
  | inl e ↦ rw (after_attempt, e) (tt, omega arith, omega arith)
  | inr e ↦ let (l, h) = next_range secs lo hi in rw (after_attempt, e) ((lo, hi), l, h)
]

waits_range :
    (secs : ℕ) (attempts : List Attempt) → 1 ≤ secs → secs ≤ 60 → All InRange (waits secs attempts)
unfolding waits
waits_range secs [] lo hi = tt
waits_range secs (a ∷ rest) lo hi =
    let (now, l, h) = kept_range secs a lo hi in
    (now, waits_range (after_attempt secs a).1 rest l h)

not_healthy : (held : ℕ) → ltb held 30 ≡ true → leb 30 held ≡ false
not_healthy held h = ground arith

short_attempt :
    (secs : ℕ) (a : Attempt)
    → short_lived a ≡ true
    → after_attempt secs a ≡ (some secs, next_backoff secs)
unfolding after_attempt
short_attempt secs failed h = refl
short_attempt secs (dropped held) h = rw (after_attempt, not_healthy held h) refl

waits_short :
    (secs : ℕ) (a : Attempt) (rest : List Attempt)
    → short_lived a ≡ true
    → waits secs (a ∷ rest) ≡ some secs ∷ waits (next_backoff secs) rest
unfolding waits
waits_short secs a rest h = ap (λ x. x.0 ∷ waits x.1 rest) (short_attempt secs a h)

-- The backoff after so many short attempts.
abbrev doubled : ℕ → ℕ → ℕ
doubled zero secs = secs
doubled (suc n) secs = doubled n (next_backoff secs)

at_cap : next_backoff 60 ≡ 60
unfolding next_backoff
at_cap = refl

stays :
    (attempts : List Attempt)
    → All (λ a. short_lived a ≡ true) attempts
    → All (λ w. w ≡ some 60) (waits 60 attempts)
unfolding waits
stays [] h = tt
stays (a ∷ rest) h =
    subst (All (λ w. w ≡ some 60)) (sym (waits_short 60 a rest h.0))
      (refl, subst (λ n. All (λ w. w ≡ some 60) (waits n rest)) (sym at_cap) (stays rest h.1))

capped :
    (n secs : ℕ) (attempts : List Attempt)
    → doubled n secs ≡ 60
    → All (λ a. short_lived a ≡ true) attempts
    → All (λ w. w ≡ some 60) (drop n (waits secs attempts))
unfolding waits
capped zero secs attempts e h =
    subst (λ n. All (λ w. w ≡ some 60) (waits n attempts)) (sym e) (stays attempts h)
capped (suc n) secs [] e h = tt
capped (suc n) secs (a ∷ rest) e h =
    subst (λ ws. All (λ w. w ≡ some 60) (drop (suc n) ws)) (sym (waits_short secs a rest h.0))
      (capped n (next_backoff secs) rest e h.1)

six : doubled 6 1 ≡ 60
unfolding next_backoff
six = refl

-- However the connections go, the daemon waits a second at least and a minute at most each time
-- that it waits; and while no connection is healthy, each wait from the seventh on is a minute.
pub waits_bounds :
    (attempts unhealthy : List Attempt)
    → All (λ a. short_lived a ≡ true) unhealthy
    → All InRange (waits 1 attempts) × All (λ w. w ≡ some 60) (drop 6 (waits 1 unhealthy))
waits_bounds attempts unhealthy h =
    (waits_range 1 attempts (omega arith) (omega arith), capped 6 1 unhealthy six h)

-- An error that another round would meet again: the vault has no relay, the vault itself fails, or
-- the relay answers with a status below 500.
abbrev pub IsLasting : SyncError → Type 0
IsLasting no_relay = Unit
IsLasting http = ⊥
IsLasting (rejected status) = status < 500
IsLasting (vault_error e) = Unit

abbrev error_of {ℓ} : {A : Type ℓ} → SyncError → Synced A → SyncError
error_of e (synced a) = e
error_of e (broken x) = x

module _ (client : Client) (c : Codec) (relay : Relay) where
  -- Where the error of a round comes from: from reloading, which changes nothing, or from the
  -- exchange, where it is a lasting one.
  abbrev pub Raised : SyncError → Vault → Disk → Vault → Disk → Type 0
  Raised e v d v' d' =
      ((x : VaultError) × (reload c v d ≡ fail x) × (e ≡ vault_error x) × (v' ≡ v) × (d' ≡ d))
      ⊎ ((v1 : Vault) × (d1 : Disk) × (reload c v d ≡ done (v1, d1))
          × (sync_once client c relay v1 d1 ≡ (broken e, v', d'))
          × IsLasting e)
