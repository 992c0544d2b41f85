-- ===== src/Relay/Lifecycle.antt =====
-- The handlers of a device's life in src/relay.rs: enroll, approve, revoke, rotate, recover.
use sshvault.Prelude.{
  ℕ, ◌+◌, Bool, true, false, ◌&&◌, not, Option, none, some, List, [], ◌∷◌, ◌++◌, ◌==◌,
  if◌then◌else◌,
}
use sshvault.Prelude.Order.{Text, text_eq}
use sshvault.Proto.{Signed, EnrollResp, WrappedFor, PushResp, RecoverReq, RecoverResp}
use sshvault.Relay.Db.{
  Db, VaultRow, DeviceRow, on_vaults, on_devices, is_vault, is_device, any_row, first_row,
  update_where, upsert, head, device_row, can_sync,
}
use sshvault.Relay.Handler.{
  Handler, bad_request, unauthorized, forbidden, not_found, conflict, pure, guard, or_raise, query,
  exec, ◌>>=◌, ◌>>◌,
}
use sshvault.Relay.Auth.{Env, decode, decode_array, verify, mark_seen, json_body}

is_revoked_row : Option DeviceRow → Bool
is_revoked_row none = false
is_revoked_row (some r) = r.revoked

-- `INSERT OR IGNORE INTO vaults`: whether the row was new.
unfoldable pub insert_vault : Text → Text → Db → Bool × Db
unfolding any_row
insert_vault vault recovery = on_vaults λ rows.
    if any_row (is_vault vault) rows
    then (false, rows)
    else (true, rows ++ record { vault_id = vault; recovery_pub = recovery; epoch = 0 } ∷ [])

-- The `INSERT INTO devices … ON CONFLICT DO UPDATE` of `enroll`.
unfoldable pub enroll_device : Text → Text → Text → Text → Bool → Db → Unit {0} × Db
unfolding upsert
enroll_device vault key x_pub name approved = on_devices λ rows. (
  tt,
  upsert (is_device vault key) (λ r. record r { name = name; x25519_pub = x_pub })
      (record {
        vault_id = vault;
        ed25519_pub = key;
        x25519_pub = x_pub;
        name = name;
        approved = approved;
        revoked = false;
        wrapped_key = none;
      })
      rows,
)

-- `UPDATE devices SET approved = 1, wrapped_key = ? WHERE … AND revoked = 0`
unfoldable pub approve_device : Text → Text → Text → Db → Bool × Db
unfolding any_row update_where
approve_device vault target wrapped = on_devices λ rows.
    let fits = λ (r : DeviceRow). is_device vault target r && not r.revoked in
    (
      any_row fits rows,
      update_where fits (λ r. record r { approved = true; wrapped_key = some wrapped }) rows,
    )

-- `UPDATE devices SET revoked = 1, approved = 0, wrapped_key = NULL WHERE …`
unfoldable pub revoke_device : Text → Text → Db → Bool × Db
unfolding any_row update_where
revoke_device vault target = on_devices λ rows. (
  any_row (is_device vault target) rows,
  update_where (is_device vault target)
      (λ r. record r { revoked = true; approved = false; wrapped_key = none }) rows,
)

-- `UPDATE vaults SET epoch = ? WHERE vault_id = ? AND epoch = ? - 1`, over signed numbers
unfoldable pub bump_vault : Text → ℕ → Db → Bool × Db
unfolding any_row update_where
bump_vault vault epoch = on_vaults λ rows.
    let fits = λ (r : VaultRow). is_vault vault r && r.epoch + 1 == epoch in
    (any_row fits rows, update_where fits (λ r. record r { epoch = epoch }) rows)

-- `UPDATE devices SET wrapped_key = ? WHERE … AND revoked = 0`
unfoldable pub rewrap_device : Text → Text → Text → Db → Unit {0} × Db
unfolding update_where
rewrap_device vault target wrapped = on_devices λ rows. (
  tt,
  update_where (λ r. is_device vault target r && not r.revoked)
      (λ r. record r { wrapped_key = some wrapped }) rows,
)

-- The `INSERT INTO devices … ON CONFLICT DO UPDATE` of `recover`.
unfoldable pub readmit_device : Text → Text → Text → Text → Db → Unit {0} × Db
unfolding upsert
readmit_device vault key x_pub name = on_devices λ rows. (
  tt,
  upsert (is_device vault key)
      (λ r. record r { approved = true; revoked = false; x25519_pub = x_pub })
      (record {
        vault_id = vault;
        ed25519_pub = key;
        x25519_pub = x_pub;
        name = name;
        approved = true;
        revoked = false;
        wrapped_key = none;
      })
      rows,
)

module _ (env : Env) (now : ℕ) where
  unfoldable pub enroll : Signed → Handler EnrollResp
  unfolding is_revoked_row
  enroll signed = do
    (vault, key) ← verify env now signed
    req ← json_body (env.json_enroll signed.body)
    guard (text_eq req.ed25519_pub_b64 signed.device_pub_b64) bad_request
    row ← query (λ db. device_row db vault key)
    guard (not (is_revoked_row row)) forbidden
    x_pub ← decode env req.x25519_pub_b64
    recovery_pub ← decode env req.recovery_pub_b64
    bootstrap ← exec (insert_vault vault recovery_pub)
    exec (enroll_device vault key x_pub req.device_name bootstrap)
    h ← query (λ db. head db vault)
    pure (record { approved = bootstrap; head = h })

  unfoldable pub approve : Signed → Handler PushResp
  approve signed = do
    (vault, key) ← verify env now signed
    allowed ← query (λ db. can_sync db vault key)
    guard allowed forbidden
    req ← json_body (env.json_approve signed.body)
    target ← decode env req.target_pub_b64
    wrapped ← decode env req.wrapped_key_b64
    affected ← exec (approve_device vault target wrapped)
    guard affected not_found
    h ← query (λ db. head db vault)
    pure (record { head = h; stored = 0 })

  unfoldable pub revoke : Signed → Handler PushResp
  revoke signed = do
    (vault, key) ← verify env now signed
    allowed ← query (λ db. can_sync db vault key)
    guard allowed forbidden
    req ← json_body (env.json_revoke signed.body)
    target ← decode env req.target_pub_b64
    affected ← exec (revoke_device vault target)
    guard affected not_found
    h ← query (λ db. head db vault)
    pure (record { head = h; stored = 0 })

  -- The loop of `rotate` over `req.wrapped`.
  unfoldable pub rewrap_devices : Text → List WrappedFor → Handler (Unit {0})
  rewrap_devices vault [] = pure tt
  rewrap_devices vault (w ∷ ws) = do
    target ← decode env w.device_pub_b64
    wrapped ← decode env w.wrapped_key_b64
    exec (rewrap_device vault target wrapped)
    rewrap_devices vault ws

  -- `rotate` past the replay check.
  unfoldable pub rotate_fresh : Text → Signed → Handler PushResp
  rotate_fresh vault signed = do
    req ← json_body (env.json_rotate signed.body)
    bumped ← exec (bump_vault vault req.epoch)
    guard bumped conflict
    rewrap_devices vault req.wrapped
    h ← query (λ db. head db vault)
    pure (record { head = h; stored = 0 })

  unfoldable pub rotate : Signed → Handler PushResp
  rotate signed = do
    (vault, key) ← verify env now signed
    allowed ← query (λ db. can_sync db vault key)
    guard allowed forbidden
    fresh ← mark_seen env now signed.sig_b64
    guard fresh conflict
    rotate_fresh vault signed

  unfoldable pub recover : RecoverReq → Handler RecoverResp
  recover req = do
    recovery_pub ← decode_array env 32 req.recovery_pub_b64
    ed_pub ← decode_array env 32 req.ed25519_pub_b64
    sig ← decode_array env 64 req.sig_b64
    guard (env.is_key recovery_pub) bad_request
    guard (env.verifies recovery_pub ed_pub sig) unauthorized
    found ←
        query (λ db. first_row (λ (r : VaultRow). text_eq r.recovery_pub recovery_pub) db.vaults)
    row ← or_raise found not_found
    x_pub ← decode env req.x25519_pub_b64
    exec (readmit_device row.vault_id ed_pub x_pub req.device_name)
    pure (record { vault_id_b64 = row.vault_id })
