-- ===== src/Proto/Window.antt =====
-- The time window of signed requests, over all 64-bit patterns of the timestamp.
use sshvault.Prelude.{ℕ, ◌+◌, ◌^◌, ◌≤◌, ◌<◌, ◌≡◌, ◌⊎◌, ◌↔◌, true, arith}
use sshvault.Proto.{is_fresh}

-- A request is in the window exactly when its timestamp is at most 300 seconds from the relay's
-- time, or is the one pattern half the range away, whose distance wraps to the least `i64`.
pub is_fresh_iff :
    (now ts : ℕ)
    → 300 ≤ now
    → now + 300 < 2 ^ 63
    → ts < 2 ^ 64
    → (is_fresh now ts ≡ true) ↔ (((now ≤ ts + 300) × (ts ≤ now + 300)) ⊎ (ts ≡ now + 2 ^ 63))
unfolding is_fresh
is_fresh_iff now ts h k l = ground arith
