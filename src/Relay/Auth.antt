-- ===== src/Relay/Auth.antt =====
-- `verify`, `mark_seen` and the decoding helpers of src/relay.rs.
use sshvault.Prelude.{
  ℕ, ◌+◌, Bool, true, false, not, Option, none, some, [], ◌∷◌, ◌++◌, length, ltb, ◌==◌,
  if◌then◌else◌,
}
use sshvault.Prelude.Order.{Text, text_eq}
use sshvault.Proto.{
  Signed, EnrollReq, ApproveReq, RevokeReq, RotateReq, ShareGrantReq, ShareRotateReq, PushReq,
  is_fresh, max_skew_secs,
}
use sshvault.Proto.Message.{signing_message}
use sshvault.Relay.Db.{Db, on_seen, rows_where, any_row}
use sshvault.Relay.Handler.{
  Handler, ok, bad_request, unauthorized, lift, guard, or_raise, exec, ◌>>=◌, ◌>>◌,
}

-- What the relay takes from libraries: base64, Ed25519 and the JSON reader of each request.
pub record Env : Type 0 where
  pub b64_decode : Text → Option Text
  pub b64_encode : Text → Text
  -- `VerifyingKey::from_bytes` succeeds.
  pub is_key : Text → Bool
  -- `key.verify(message, signature)` succeeds.
  pub verifies : Text → Text → Text → Bool
  pub json_enroll : Text → Option EnrollReq
  pub json_approve : Text → Option ApproveReq
  pub json_revoke : Text → Option RevokeReq
  pub json_rotate : Text → Option RotateReq
  pub json_share_grant : Text → Option ShareGrantReq
  pub json_share_rotate : Text → Option ShareRotateReq
  pub json_push : Text → Option PushReq

-- `.filter(|b| b.len() == n)`, and `.try_into()` an array of `n` bytes
of_length : ℕ → Option Text → Option Text
of_length n none = none
of_length n (some b) = if length b == n then some b else none

-- `DELETE FROM seen_sigs WHERE expires_at < now`, then `INSERT OR IGNORE`
unfoldable pub record_sig : ℕ → Text → Db → Bool × Db
unfolding rows_where any_row
record_sig now sig = on_seen λ rows.
    let live = rows_where (λ r. not (ltb r.expires_at now)) rows in
    if any_row (λ r. text_eq r.sig sig) live
    then (false, live)
    else (true, live ++ record { sig = sig; expires_at = now + max_skew_secs } ∷ [])

module _ (env : Env) where
  unfoldable pub decode : Text → Handler Text
  decode b64 = or_raise (env.b64_decode b64) bad_request

  -- Decoding to an array of `n` bytes.
  unfoldable pub decode_array : ℕ → Text → Handler Text
  unfolding of_length
  decode_array n b64 = or_raise (of_length n (env.b64_decode b64)) bad_request

  unfoldable pub decode_share : Text → Handler Text
  unfolding decode_array
  decode_share b64 = decode_array 16 b64

  -- The vault and the device key of a signed envelope.
  unfoldable pub verify : ℕ → Signed → Handler (Text × Text)
  unfolding decode_array ◌>>=◌
  verify now signed = do
    guard (is_fresh now signed.ts) unauthorized
    pub_bytes ← decode_array 32 signed.device_pub_b64
    guard (env.is_key pub_bytes) bad_request
    sig_bytes ← decode_array 64 signed.sig_b64
    let msg = signing_message signed.ts signed.body
    guard (env.verifies pub_bytes msg sig_bytes) unauthorized
    lift (ok (signed.vault_id_b64, pub_bytes))

  -- `false` if the signature was seen before.
  unfoldable pub mark_seen : ℕ → Text → Handler Bool
  unfolding decode record_sig ◌>>=◌
  mark_seen now sig_b64 = do sig ← decode sig_b64; exec (record_sig now sig)

-- `json_body`
unfoldable pub json_body : {T : Type 0} → Option T → Handler T
json_body parsed = or_raise parsed bad_request
