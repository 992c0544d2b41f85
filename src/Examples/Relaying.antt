-- ===== src/Examples/Relaying.antt =====
-- A relay with one vault and two devices.
use sshvault.Prelude.{
  ℕ, zero, suc, ◌<◌, ◌^◌, ap, ◌≡◌, ◌≢◌, refl, true, false, some, none, List, [], ◌∷◌, ◌++◌, arith,
}
use sshvault.Prelude.Order.{Text}
use sshvault.Proto.{Signed, PushReq, PullResp, EnrollReq, is_fresh}
use sshvault.Relay.Db.{Db, DeviceRow, migrate, can_sync, head}
use sshvault.Relay.Handler.{Reply, ok, err, forbidden}
use sshvault.Relay.Auth.{Env, verify, mark_seen, json_body, decode}
use sshvault.Relay.Lifecycle
use sshvault.Relay.Shares
use sshvault.Relay.Log
use sshvault.Relay.Log.{pull, pull_signed}
use sshvault.Relay.Requests.{Request, run}
use sshvault.Relay.Revocation.{revoked_device_stays_out}
use sshvault.Relay.Access.{IsSigned, IsApproved}
use sshvault.Relay.Access.Changes.{serve-IsAuthorised}
use sshvault.Relay.Replay.{rotation_not_replayed}
use sshvault.Relay.Replay.Gap.{replay_gap}
use sshvault.Relay.Cursor.{run-Extends, Extends}
use sshvault.Relay.Resume.{pull_resume}

abbrev bytes : ℕ → ℕ → Text
bytes zero b = []
bytes (suc n) b = b ∷ bytes n b

abbrev laptop : Text
laptop = bytes 32 1

abbrev phone : Text
phone = bytes 32 2

abbrev home : Text
home = bytes 16 7

abbrev enrolment : EnrollReq
enrolment = record {
  device_name = bytes 1 97;
  ed25519_pub_b64 = laptop;
  x25519_pub_b64 = bytes 32 3;
  recovery_pub_b64 = bytes 32 4;
}

abbrev upload : PushReq
upload = record {
  entries = record { entry_id_b64 = bytes 16 9; blob_b64 = bytes 3 5; share_id_b64 = [] } ∷ [];
}

-- Texts are their own base64, and all signatures are accepted.
abbrev plain_env : Env
plain_env = record {
  b64_decode = some;
  b64_encode = λ t. t;
  is_key = λ _. true;
  verifies = λ _ _ _. true;
  json_enroll = λ _. some enrolment;
  json_approve = λ _. none;
  json_revoke = λ _. some (record { target_pub_b64 = phone });
  json_rotate = λ _. some (record { epoch = 1; wrapped = [] });
  json_share_grant = λ _. none;
  json_share_rotate = λ _. none;
  json_push = λ _. some upload;
}

abbrev device : Text → DeviceRow
device key = record {
  vault_id = home;
  ed25519_pub = key;
  x25519_pub = bytes 32 3;
  name = [];
  approved = true;
  revoked = false;
  wrapped_key = none;
}

abbrev two_devices : Db
two_devices = record migrate {
  vaults = record { vault_id = home; recovery_pub = bytes 32 4; epoch = 0 } ∷ [];
  devices = device laptop ∷ device phone ∷ [];
}

abbrev from_laptop : Signed
from_laptop = record {
  vault_id_b64 = home;
  device_pub_b64 = laptop;
  sig_b64 = bytes 64 6;
  ts = 1000;
  body = [];
}

abbrev revoked : Db
revoked = (Lifecycle.revoke plain_env 1000 from_laptop two_devices).1

verified : verify plain_env 1000 from_laptop two_devices ≡ (ok (home, laptop), two_devices)
unfolding verify is_fresh
verified = refl

revoke_ok :
    (Lifecycle.revoke plain_env 1000 from_laptop two_devices).0
    ≡ ok (record { head = 0; stored = 0 })
unfolding Lifecycle.revoke verify is_fresh can_sync json_body decode Lifecycle.revoke_device head
revoke_ok = refl

rotate_ok :
    (Lifecycle.rotate plain_env 1000 from_laptop two_devices).0
    ≡ ok (record { head = 0; stored = 0 })
unfolding Lifecycle.rotate verify is_fresh can_sync mark_seen Lifecycle.rotate_fresh json_body
    Lifecycle.bump_vault Lifecycle.rewrap_devices head
rotate_ok = refl

-- The phone is revoked, and the laptop pushes.
revoked_device_stays_out_example :
    can_sync (run plain_env ((1001, Request.push from_laptop) ∷ []) revoked) home phone ≡ false
revoked_device_stays_out_example =
    revoked_device_stays_out plain_env 1000 from_laptop two_devices home laptop phone
      (record { target_pub_b64 = phone }) ((1001, Request.push from_laptop) ∷ []) verified refl refl
      revoke_ok (tt, tt)

push_changes : run plain_env ((1000, Request.push from_laptop) ∷ []) two_devices ≢ two_devices
unfolding run sshvault.Relay.Requests.serve Log.push verify is_fresh can_sync json_body decode
    Log.store_entries Log.insert_entry Log.notify head
push_changes h =
    let grew : ◌≡◌ {A = ℕ} 1 0 = ap (λ (d : Db). d.last_seq) h in absurd (omega (arith, grew))

serve-IsAuthorised_example :
    (vault key : Text) × IsSigned plain_env 1000 from_laptop vault key
    × IsApproved two_devices vault key
unfolding run
serve-IsAuthorised_example =
    serve-IsAuthorised plain_env 1000 two_devices (Request.push from_laptop) push_changes

abbrev rotated : Db
rotated = (Lifecycle.rotate plain_env 1000 from_laptop two_devices).1

rotation_not_replayed_example :
    ((Lifecycle.rotate plain_env 1300 from_laptop
        (run plain_env ((1001, Request.push from_laptop) ∷ []) rotated)).0
      ≢ ok (record { head = 0; stored = 0 }))
    × ((Shares.share_rotate plain_env 1300 from_laptop
          (run plain_env ((1001, Request.push from_laptop) ∷ []) rotated)).0
        ≢ ok (record { head = 0; stored = 0 }))
rotation_not_replayed_example =
    rotation_not_replayed plain_env 1000 1300 from_laptop from_laptop two_devices home laptop
      (bytes 64 6) ((1001, Request.push from_laptop) ∷ []) verified refl rotate_ok (omega arith, tt)
      (omega arith) refl

-- The cache holds another signature.
abbrev busy : Db
busy = record two_devices { seen_sigs = record { sig = bytes 64 5; expires_at = 1200 } ∷ [] }

marked_first : (mark_seen plain_env 1000 (bytes 64 6) busy).0 ≡ ok true
unfolding mark_seen
marked_first = refl

replay_gap_example :
    (is_fresh 1000 1300 ≡ true)
    × (is_fresh 1400 1300 ≡ true)
    × ((mark_seen plain_env 1400 (bytes 64 6) (
          run plain_env
            ((1001, Request.push from_laptop) ∷ [])
            (mark_seen plain_env 1000 (bytes 64 6) busy).1)).0
        ≡ ok true)
replay_gap_example =
    replay_gap plain_env 1000 1400 1300 (bytes 64 6) (bytes 64 6) busy
      ((1001, Request.push from_laptop) ∷ []) (omega arith) (omega arith) (omega arith)
      (omega arith) (omega arith) refl marked_first (omega arith, tt)

run-Extends_example :
    Extends
      (two_devices.entries, two_devices.last_seq)
      (
        (run plain_env ((1001, Request.push from_laptop) ∷ []) two_devices).entries,
        (run plain_env ((1001, Request.push from_laptop) ∷ []) two_devices).last_seq,
      )
run-Extends_example = run-Extends plain_env ((1001, Request.push from_laptop) ∷ []) two_devices

abbrev enrolling : List (ℕ × Request)
enrolling = (1000, Request.enroll from_laptop) ∷ []

abbrev pushing : List (ℕ × Request)
pushing = (1001, Request.push from_laptop) ∷ []

abbrev enrolled : Db
enrolled = run plain_env enrolling migrate

abbrev pushed : Db
pushed = run plain_env pushing enrolled

abbrev no_entries : PullResp
no_entries = record { entries = []; head = 0 }

abbrev one_entry : PullResp
one_entry = record {
  entries =
      record { entry_id_b64 = bytes 16 9; blob_b64 = bytes 3 5; share_id_b64 = bytes 16 0 } ∷ [];
  head = 1;
}

verified_first :
    verify plain_env 1000 (pull_signed plain_env 1000 home laptop (bytes 64 6) 0 1000) enrolled
    ≡ (ok (home, laptop), enrolled)
unfolding verify is_fresh pull_signed
verified_first = refl

verified_second :
    verify plain_env 1002 (pull_signed plain_env 1002 home laptop (bytes 64 6) 0 1002) pushed
    ≡ (ok (home, laptop), pushed)
unfolding verify is_fresh pull_signed
verified_second = refl

first_pull : (pull plain_env 1000 home laptop (bytes 64 6) 0 1000 enrolled).0 ≡ ok no_entries
unfolding pull sshvault.Relay.Handler.◌>>=◌ verify is_fresh can_sync run
    sshvault.Relay.Requests.serve Lifecycle.enroll json_body decode Lifecycle.enroll_device
    Lifecycle.insert_vault sshvault.Relay.Db.rows_where head
first_pull = refl

second_pull : (pull plain_env 1002 home laptop (bytes 64 6) 0 1002 pushed).0 ≡ ok one_entry
unfolding pull pull_signed sshvault.Relay.Handler.◌>>=◌ verify is_fresh can_sync run
    sshvault.Relay.Requests.serve Log.push Log.share_of Lifecycle.enroll json_body decode
    Lifecycle.enroll_device Lifecycle.insert_vault Log.store_entries Log.insert_entry Log.notify
    Log.is_visible Log.wire_entry sshvault.Relay.Db.rows_where sshvault.Relay.Db.any_row head
    sshvault.Relay.Handler.query sshvault.Relay.Handler.guard sshvault.Relay.Handler.pure
    sshvault.Relay.Db.device_row
second_pull = refl

same_members : pushed.members ≡ enrolled.members
unfolding pull pull_signed sshvault.Relay.Handler.◌>>=◌ verify is_fresh can_sync run
    sshvault.Relay.Requests.serve Log.push Log.share_of Lifecycle.enroll json_body decode
    Lifecycle.enroll_device Lifecycle.insert_vault Log.store_entries Log.insert_entry Log.notify
    Log.is_visible Log.wire_entry sshvault.Relay.Db.rows_where sshvault.Relay.Db.any_row head
    sshvault.Relay.Handler.query sshvault.Relay.Handler.guard sshvault.Relay.Handler.pure
    sshvault.Relay.Db.device_row
same_members = refl

last_seq_small : enrolled.last_seq < 2 ^ 63
unfolding run sshvault.Relay.Requests.serve Lifecycle.enroll json_body decode
    Lifecycle.enroll_device Lifecycle.insert_vault verify is_fresh sshvault.Relay.Db.device_row
last_seq_small = omega arith

pull_resume_example : one_entry.entries ≡ no_entries.entries ++ one_entry.entries
pull_resume_example =
    pull_resume plain_env home laptop enrolling pushing 1000 1002 home laptop (bytes 64 6)
      (bytes 64 6) (bytes 64 6) 0 1000 1002 1002 {p = no_entries} {q = one_entry} {r = one_entry}
      verified_first first_pull verified_second second_pull verified_second second_pull
      (omega arith) last_seq_small same_members
