-- ===== src/Relay/Log.antt =====
-- The opaque log in src/relay.rs: push, pull and the change notifications.
use sshvault.Prelude.{
  ℕ, ◌+◌, ◌^◌, leb, max, Bool, ◌&&◌, ◌||◌, List, [], ◌∷◌, ◌++◌, map, ltb, if◌then◌else◌,
}
use sshvault.Prelude.Order.{Text, text_eq}
use sshvault.Proto.{Signed, WireEntry, PushResp, PullResp}
use sshvault.Proto.Message.{show_nat}
use sshvault.Relay.Db.{
  Db, EntryRow, on_entries, is_entry, is_member, any_row, rows_where, head, can_sync,
}
use sshvault.Relay.Handler.{Handler, forbidden, pure, guard, query, exec, ◌>>=◌, ◌>>◌}
use sshvault.Relay.Auth.{Env, decode, decode_share, verify, json_body}

abbrev pub nil_share : Text
nil_share = 0 ∷ 0 ∷ 0 ∷ 0 ∷ 0 ∷ 0 ∷ 0 ∷ 0 ∷ 0 ∷ 0 ∷ 0 ∷ 0 ∷ 0 ∷ 0 ∷ 0 ∷ 0 ∷ []

-- `INSERT OR IGNORE INTO entries`: how many rows were added. The statement takes the next
-- AUTOINCREMENT number, also when the row is ignored.
unfoldable pub insert_entry : Text → Text → Text → Text → Db → ℕ × Db
unfolding any_row
insert_entry vault entry_id blob share = on_entries λ rows last_seq.
    if any_row (is_entry vault entry_id) rows then (0, rows, last_seq + 1) else (
      1,
      rows
          ++ record {
            vault_id = vault;
            seq = last_seq + 1;
            entry_id = entry_id;
            blob = blob;
            share_id = share;
          }
            ∷ [],
      last_seq + 1,
    )

-- `notify`: the new head is sent if the vault has a channel.
unfoldable pub notify : Text → ℕ → Db → Unit {0} × Db
unfolding any_row
notify vault h db = (
  tt,
  record db {
    sent = if any_row (text_eq vault) db.channels then (vault, h) ∷ db.sent else db.sent;
  },
)

-- `ws`: subscribing makes the vault's channel if there is none.
unfoldable pub subscribe : Text → Db → Db
unfolding any_row
subscribe vault db = record db {
  channels = if any_row (text_eq vault) db.channels then db.channels else vault ∷ db.channels;
}

-- `seq > ?` of a cursor that is bound as an `i64`: from 2^63 on it is negative, and every number is
-- past it.
unfoldable pub is_past : ℕ → ℕ → Bool
is_past since seq = leb (2 ^ 63) since || ltb since seq

-- The entries that a device may pull: past the cursor, and in the nil share or in one of its own.
unfoldable pub is_visible : Db → Text → Text → ℕ → EntryRow → Bool
unfolding any_row is_past
is_visible db vault key since r =
    text_eq r.vault_id vault
    && is_past since r.seq
    && (text_eq r.share_id nil_share || any_row (is_member r.vault_id r.share_id key) db.members)

module _ (env : Env) (now : ℕ) where
  -- The share of a wire entry: an empty text is the nil share.
  unfoldable pub share_of : Text → Handler Text
  share_of [] = pure nil_share
  share_of (c ∷ s) = decode_share env (c ∷ s)

  -- The loop of `push`; the count is that of the new entries.
  unfoldable pub store_entries : Text → ℕ → List WireEntry → Handler ℕ
  unfolding share_of
  store_entries vault stored [] = pure stored
  store_entries vault stored (e ∷ es) = do
    entry_id ← decode env e.entry_id_b64
    blob ← decode env e.blob_b64
    share_id ← share_of e.share_id_b64
    affected ← exec (insert_entry vault entry_id blob share_id)
    store_entries vault (stored + affected) es

  unfoldable pub push : Signed → Handler PushResp
  push signed = do
    (vault, key) ← verify env now signed
    allowed ← query (λ db. can_sync db vault key)
    guard allowed forbidden
    req ← json_body (env.json_push signed.body)
    stored ← store_entries vault 0 req.entries
    h ← query (λ db. head db vault)
    if ltb 0 stored then exec (notify vault h) else pure tt
    pure (record { head = h; stored = stored })

  unfoldable pub wire_entry : EntryRow → WireEntry
  wire_entry r = record {
    entry_id_b64 = env.b64_encode r.entry_id;
    blob_b64 = env.b64_encode r.blob;
    share_id_b64 = env.b64_encode r.share_id;
  }

  -- The query of a pull: `vault`, `device`, `sig`, `since` and `ts`. What is signed is `pull:since`.
  unfoldable pub pull_signed : Text → Text → Text → ℕ → ℕ → Signed
  unfolding show_nat
  pull_signed vault device sig since ts = record {
    vault_id_b64 = vault;
    device_pub_b64 = device;
    sig_b64 = sig;
    ts = ts;
    body = b'p' ∷ b'u' ∷ b'l' ∷ b'l' ∷ b':' ∷ show_nat since;
  }

  -- The rows come in the order of `seq`, in which the table holds them.
  unfoldable pub pull : Text → Text → Text → ℕ → ℕ → Handler PullResp
  unfolding pull_signed wire_entry
  pull vault_b64 device sig since ts = do
    (vault, key) ← verify env now (pull_signed vault_b64 device sig since ts)
    allowed ← query (λ db. can_sync db vault key)
    guard allowed forbidden
    rows ← query (λ db. rows_where (is_visible db vault key since) db.entries)
    h ← query (λ db. head db vault)
    pure (record { entries = map wire_entry rows; head = max h since })
