-- ===== src/Relay/Db.antt =====
-- The tables of `migrate` in src/relay.rs, and the SQL statements of the handlers as functions on
-- them. A BLOB or a TEXT is its bytes. Statements do not fail: storage errors are not modelled.
use sshvault.Prelude.{
  ℕ, max, Bool, false, ◌&&◌, ◌||◌, not, Option, none, some, List, [], ◌∷◌, ◌++◌, if◌then◌else◌,
}
use sshvault.Prelude.Order.{Text, text_eq}

pub record VaultRow : Type 0 where
  pub vault_id : Text
  pub recovery_pub : Text
  pub epoch : ℕ

pub record DeviceRow : Type 0 where
  pub vault_id : Text
  pub ed25519_pub : Text
  pub x25519_pub : Text
  pub name : Text
  pub approved : Bool
  pub revoked : Bool
  pub wrapped_key : Option Text

pub record EntryRow : Type 0 where
  pub vault_id : Text
  pub seq : ℕ
  pub entry_id : Text
  pub blob : Text
  pub share_id : Text

pub record ShareRow : Type 0 where
  pub vault_id : Text
  pub share_id : Text
  pub epoch : ℕ

pub record MemberRow : Type 0 where
  pub vault_id : Text
  pub share_id : Text
  pub ed25519_pub : Text
  pub wrapped_key : Text

pub record SeenRow : Type 0 where
  pub sig : Text
  pub expires_at : ℕ

-- `AppState`: the database, with the last AUTOINCREMENT value of `entries`, and the notify map,
-- with what was broadcast so far, the latest first.
pub record Db : Type 0 where
  pub vaults : List VaultRow
  pub devices : List DeviceRow
  pub entries : List EntryRow
  pub last_seq : ℕ
  pub shares : List ShareRow
  pub members : List MemberRow
  pub seen_sigs : List SeenRow
  pub channels : List Text
  pub sent : List (Text × ℕ)

-- The tables after `migrate` on a new file.
abbrev pub migrate : Db
migrate = record {
  vaults = [];
  devices = [];
  entries = [];
  last_seq = 0;
  shares = [];
  members = [];
  seen_sigs = [];
  channels = [];
  sent = [];
}

module _ {ℓ} {A : Type ℓ} where
  -- Whether a row fits a `WHERE` clause.
  unfoldable pub any_row : (A → Bool) → List A → Bool
  any_row p [] = false
  any_row p (r ∷ rows) = p r || any_row p rows

  -- `SELECT … WHERE … `, the first row
  unfoldable pub first_row : (A → Bool) → List A → Option A
  first_row p [] = none
  first_row p (r ∷ rows) = if p r then some r else first_row p rows

  -- `SELECT … WHERE …`, all rows
  unfoldable pub rows_where : (A → Bool) → List A → List A
  rows_where p [] = []
  rows_where p (r ∷ rows) = let rest = rows_where p rows in if p r then r ∷ rest else rest

  -- `UPDATE … SET … WHERE …`
  unfoldable pub update_where : (A → Bool) → (A → A) → List A → List A
  update_where p f [] = []
  update_where p f (r ∷ rows) = (if p r then f r else r) ∷ update_where p f rows

  -- `INSERT … ON CONFLICT DO UPDATE SET …`: rows that conflict are changed, else the row is added.
  unfoldable pub upsert : (A → Bool) → (A → A) → A → List A → List A
  unfolding any_row update_where
  upsert p f row rows = if any_row p rows then update_where p f rows else rows ++ row ∷ []

-- A statement on one table, with its result.
module _ {A : Type 0} where
  abbrev pub on_vaults : (List VaultRow → A × List VaultRow) → Db → A × Db
  on_vaults f db = let (a, rows) = f db.vaults in (a, record db { vaults = rows })

  abbrev pub on_devices : (List DeviceRow → A × List DeviceRow) → Db → A × Db
  on_devices f db = let (a, rows) = f db.devices in (a, record db { devices = rows })

  abbrev pub on_shares : (List ShareRow → A × List ShareRow) → Db → A × Db
  on_shares f db = let (a, rows) = f db.shares in (a, record db { shares = rows })

  abbrev pub on_members : (List MemberRow → A × List MemberRow) → Db → A × Db
  on_members f db = let (a, rows) = f db.members in (a, record db { members = rows })

  abbrev pub on_seen : (List SeenRow → A × List SeenRow) → Db → A × Db
  on_seen f db = let (a, rows) = f db.seen_sigs in (a, record db { seen_sigs = rows })

  -- `entries` with its AUTOINCREMENT number
  abbrev pub on_entries : (List EntryRow → ℕ → A × List EntryRow × ℕ) → Db → A × Db
  on_entries f db =
      let (a, rows, n) = f db.entries db.last_seq in (a, record db { entries = rows; last_seq = n })

abbrev pub is_vault : Text → VaultRow → Bool
is_vault vault r = text_eq r.vault_id vault

abbrev pub is_device : Text → Text → DeviceRow → Bool
is_device vault key r = text_eq r.vault_id vault && text_eq r.ed25519_pub key

abbrev pub is_entry : Text → Text → EntryRow → Bool
is_entry vault entry_id r = text_eq r.vault_id vault && text_eq r.entry_id entry_id

abbrev pub is_share : Text → Text → ShareRow → Bool
is_share vault share r = text_eq r.vault_id vault && text_eq r.share_id share

abbrev pub is_member : Text → Text → Text → MemberRow → Bool
is_member vault share key r =
    text_eq r.vault_id vault && text_eq r.share_id share && text_eq r.ed25519_pub key

-- `SELECT COALESCE(MAX(seq), 0) FROM entries WHERE vault_id = ?`
unfoldable pub max_seq : Text → List EntryRow → ℕ
max_seq vault [] = 0
max_seq vault (r ∷ rows) =
    let rest = max_seq vault rows in if text_eq r.vault_id vault then max r.seq rest else rest

unfoldable pub head : Db → Text → ℕ
unfolding max_seq
head db vault = max_seq vault db.entries

-- Fetch the row of a device.
unfoldable pub device_row : Db → Text → Text → Option DeviceRow
unfolding first_row
device_row db vault key = first_row (is_device vault key) db.devices

-- A device may sync only if it is enrolled, approved and not revoked.
unfoldable pub can_sync : Db → Text → Text → Bool
unfolding device_row
can_sync db vault key = elim (device_row db vault key) [
  | none ↦ false
  | some r ↦ r.approved && not r.revoked
]
