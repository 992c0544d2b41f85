-- ===== src/Proto.antt =====
-- src/proto.rs: the messages between client and relay, the signed envelope and its time window.
-- Texts are their bytes; an `i64` is its 64-bit pattern.
pub mod Window
pub mod Message
use sshvault.Prelude.{ℕ, ◌+◌, ◌-◌, ◌%◌, ◌^◌, Bool, ◌&&◌, not, Option, List, ltb, if◌then◌else◌}
use sshvault.Prelude.Order.{Text}

pub record WireEntry : Type 0 where
  pub entry_id_b64 : Text
  pub blob_b64 : Text
  pub share_id_b64 : Text

pub record PushReq : Type 0 where
  pub entries : List WireEntry

pub record PushResp : Type 0 where
  pub head : ℕ
  pub stored : ℕ

pub record PullResp : Type 0 where
  pub entries : List WireEntry
  pub head : ℕ

pub record EnrollReq : Type 0 where
  pub device_name : Text
  pub ed25519_pub_b64 : Text
  pub x25519_pub_b64 : Text
  pub recovery_pub_b64 : Text

pub record EnrollResp : Type 0 where
  pub approved : Bool
  pub head : ℕ

pub record ApproveReq : Type 0 where
  pub target_pub_b64 : Text
  pub wrapped_key_b64 : Text

pub record RevokeReq : Type 0 where
  pub target_pub_b64 : Text

-- A vault key-list wrapped for one device.
pub record WrappedFor : Type 0 where
  pub device_pub_b64 : Text
  pub wrapped_key_b64 : Text

pub record RotateReq : Type 0 where
  pub epoch : ℕ
  pub wrapped : List WrappedFor

pub record ShareGrantReq : Type 0 where
  pub share_id_b64 : Text
  pub epoch : ℕ
  pub wrapped : List WrappedFor

pub record ShareRotateReq : Type 0 where
  pub share_id_b64 : Text
  pub epoch : ℕ
  pub wrapped : List WrappedFor
  pub remove : List Text

pub record ShareMembership : Type 0 where
  pub share_id_b64 : Text
  pub epoch : ℕ
  pub wrapped_key_b64 : Text

pub record SharesResp : Type 0 where
  pub shares : List ShareMembership

pub record DeviceInfo : Type 0 where
  pub name : Text
  pub ed25519_pub_b64 : Text
  pub x25519_pub_b64 : Text
  pub approved : Bool
  pub revoked : Bool

pub record DevicesResp : Type 0 where
  pub devices : List DeviceInfo

pub record WrappedResp : Type 0 where
  pub approved : Bool
  pub wrapped_key_b64 : Option Text
  pub epoch : ℕ

pub record RecoverReq : Type 0 where
  pub recovery_pub_b64 : Text
  pub device_name : Text
  pub ed25519_pub_b64 : Text
  pub x25519_pub_b64 : Text
  pub sig_b64 : Text

pub record RecoverResp : Type 0 where
  pub vault_id_b64 : Text

pub record Signed : Type 0 where
  pub vault_id_b64 : Text
  pub device_pub_b64 : Text
  pub sig_b64 : Text
  pub ts : ℕ
  pub body : Text

abbrev pub max_skew_secs : ℕ
max_skew_secs = 300

-- `a - b` on `i64`, which wraps in a release build.
abbrev pub sub_i64 : ℕ → ℕ → ℕ
sub_i64 a b = (a + 2 ^ 64 - b) % 2 ^ 64

-- `a.abs()` on `i64`: the least value is its own absolute value in a release build.
abbrev pub abs_i64 : ℕ → ℕ
abs_i64 a = if ltb a (2 ^ 63) then a else (2 ^ 64 - a) % 2 ^ 64

-- `a > limit` on `i64`, for a limit that is not negative: a pattern from `2 ^ 63` on is negative.
abbrev pub gt_i64 : ℕ → ℕ → Bool
gt_i64 a limit = ltb a (2 ^ 63) && ltb limit a

-- The acceptance test of `verify`: `(now - ts).abs() > MAX_SKEW_SECS` is refused.
unfoldable pub is_fresh : ℕ → ℕ → Bool
is_fresh now ts = not (gt_i64 (abs_i64 (sub_i64 now ts)) max_skew_secs)
