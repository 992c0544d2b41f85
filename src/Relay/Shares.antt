-- ===== src/Relay/Shares.antt =====
-- Shares in src/relay.rs: membership with wrapped key-lists, and each share's epoch.
use sshvault.Prelude.{
  ℕ, ◌+◌, max, Bool, true, false, ◌&&◌, not, Option, none, some, List, [], ◌∷◌, ◌++◌, map, ◌==◌,
  if◌then◌else◌,
}
use sshvault.Prelude.Order.{Text, text_eq}
use sshvault.Proto.{Signed, WrappedFor, PushResp, ShareMembership, SharesResp}
use sshvault.Relay.Db.{
  Db, ShareRow, MemberRow, on_shares, on_members, is_share, is_member, any_row, first_row,
  rows_where, update_where, upsert, head, can_sync,
}
use sshvault.Relay.Handler.{Handler, forbidden, conflict, pure, guard, query, exec, ◌>>=◌, ◌>>◌}
use sshvault.Relay.Auth.{Env, decode, decode_share, verify, mark_seen, json_body}
use sshvault.Relay.Views.{signed_query}

-- `INSERT INTO shares … ON CONFLICT DO UPDATE SET epoch = MAX(epoch, excluded.epoch)`
unfoldable pub raise_epoch : Text → Text → ℕ → Db → Unit {0} × Db
unfolding upsert
raise_epoch vault share epoch = on_shares λ rows. (
  tt,
  upsert (is_share vault share) (λ r. record r { epoch = max r.epoch epoch })
      (record { vault_id = vault; share_id = share; epoch = epoch }) rows,
)

-- `INSERT INTO share_members … ON CONFLICT DO UPDATE SET wrapped_key`
unfoldable pub admit_member : Text → Text → Text → Text → Db → Unit {0} × Db
unfolding upsert
admit_member vault share target wrapped = on_members λ rows. (
  tt,
  upsert (is_member vault share target) (λ r. record r { wrapped_key = wrapped })
      (record { vault_id = vault; share_id = share; ed25519_pub = target; wrapped_key = wrapped })
      rows,
)

-- `UPDATE shares SET epoch = ? WHERE … AND epoch = ? - 1`, over signed numbers
unfoldable pub bump_share : Text → Text → ℕ → Db → Bool × Db
unfolding any_row update_where
bump_share vault share epoch = on_shares λ rows.
    let fits = λ (r : ShareRow). is_share vault share r && r.epoch + 1 == epoch in
    (any_row fits rows, update_where fits (λ r. record r { epoch = epoch }) rows)

-- `INSERT OR IGNORE INTO shares`: whether the row was new.
unfoldable pub insert_share : Text → Text → ℕ → Db → Bool × Db
unfolding any_row
insert_share vault share epoch = on_shares λ rows.
    if any_row (is_share vault share) rows
    then (false, rows)
    else (true, rows ++ record { vault_id = vault; share_id = share; epoch = epoch } ∷ [])

-- `DELETE FROM share_members WHERE …`
unfoldable pub drop_member : Text → Text → Text → Db → Unit {0} × Db
unfolding rows_where
drop_member vault share target =
    on_members λ rows. (tt, rows_where (λ r. not (is_member vault share target r)) rows)

-- `UPDATE share_members SET wrapped_key = ? WHERE …`
unfoldable pub rewrap_member : Text → Text → Text → Text → Db → Unit {0} × Db
unfolding update_where
rewrap_member vault share target wrapped = on_members λ rows.
    (tt, update_where (is_member vault share target) (λ r. record r { wrapped_key = wrapped }) rows)

-- `COALESCE(s.epoch, 0)` of the row that the `LEFT JOIN` finds.
epoch_of : Option ShareRow → ℕ
epoch_of none = 0
epoch_of (some r) = r.epoch

module _ (env : Env) (now : ℕ) where
  -- The loop of `share_grant` over `req.wrapped`.
  unfoldable pub admit_members : Text → Text → List WrappedFor → Handler (Unit {0})
  admit_members vault share [] = pure tt
  admit_members vault share (w ∷ ws) = do
    target ← decode env w.device_pub_b64
    wrapped ← decode env w.wrapped_key_b64
    exec (admit_member vault share target wrapped)
    admit_members vault share ws

  unfoldable pub share_grant : Signed → Handler PushResp
  share_grant signed = do
    (vault, key) ← verify env now signed
    allowed ← query (λ db. can_sync db vault key)
    guard allowed forbidden
    req ← json_body (env.json_share_grant signed.body)
    share ← decode_share env req.share_id_b64
    exec (raise_epoch vault share req.epoch)
    admit_members vault share req.wrapped
    h ← query (λ db. head db vault)
    pure (record { head = h; stored = 0 })

  -- The loop of `share_rotate` over `req.remove`.
  unfoldable pub drop_members : Text → Text → List Text → Handler (Unit {0})
  drop_members vault share [] = pure tt
  drop_members vault share (b64 ∷ rest) = do
    target ← decode env b64
    exec (drop_member vault share target)
    drop_members vault share rest

  -- The loop of `share_rotate` over `req.wrapped`.
  unfoldable pub rewrap_members : Text → Text → List WrappedFor → Handler (Unit {0})
  rewrap_members vault share [] = pure tt
  rewrap_members vault share (w ∷ ws) = do
    target ← decode env w.device_pub_b64
    wrapped ← decode env w.wrapped_key_b64
    exec (rewrap_member vault share target wrapped)
    rewrap_members vault share ws

  -- The first rotation of a share that the relay has no epoch for inserts its row.
  unfoldable pub first_rotation : Text → Text → ℕ → Bool → Handler (Unit {0})
  first_rotation vault share epoch true = pure tt
  first_rotation vault share epoch false = do
    inserted ← exec (insert_share vault share epoch)
    guard inserted conflict

  -- `share_rotate` past the replay check.
  unfoldable pub share_rotate_fresh : Text → Signed → Handler PushResp
  unfolding first_rotation
  share_rotate_fresh vault signed = do
    req ← json_body (env.json_share_rotate signed.body)
    share ← decode_share env req.share_id_b64
    bumped ← exec (bump_share vault share req.epoch)
    first_rotation vault share req.epoch bumped
    drop_members vault share req.remove
    rewrap_members vault share req.wrapped
    h ← query (λ db. head db vault)
    pure (record { head = h; stored = 0 })

  unfoldable pub share_rotate : Signed → Handler PushResp
  share_rotate signed = do
    (vault, key) ← verify env now signed
    allowed ← query (λ db. can_sync db vault key)
    guard allowed forbidden
    fresh ← mark_seen env now signed.sig_b64
    guard fresh conflict
    share_rotate_fresh vault signed

  membership : Db → MemberRow → ShareMembership
  unfolding epoch_of
  membership db m = record {
    share_id_b64 = env.b64_encode m.share_id;
    epoch = epoch_of (first_row (is_share m.vault_id m.share_id) db.shares);
    wrapped_key_b64 = env.b64_encode m.wrapped_key;
  }

  unfoldable pub shares : Text → Text → Text → ℕ → Handler SharesResp
  unfolding membership
  shares vault_b64 device sig ts = do
    (vault, key) ← verify env now (signed_query "shares" vault_b64 device sig ts)
    allowed ← query (λ db. can_sync db vault key)
    guard allowed forbidden
    rows ← query (λ db.
        map (membership db)
          (rows_where (λ m. text_eq m.vault_id vault && text_eq m.ed25519_pub key) db.members))
    pure (record { shares = rows })
