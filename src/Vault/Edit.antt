-- ===== src/Vault/Edit.antt =====
-- `find`, `add`, `add_in`, `edit`, `remove` and `raw_entries_tagged` of src/vault.rs.
pub mod Added
pub mod Edited
use sshvault.Prelude.{ℕ, Bool, false, ◌&&◌, not, Option, none, some, List, [], ◌∷◌, if◌then◌else◌}
use sshvault.Prelude.Order.{Text, text_ord}
use sshvault.OrdMap.{get, values}
use sshvault.Record.{Uuid, nil_uuid, Kind, tombstone, Field, Fields, Record, kind_eq}
use sshvault.Record.Values.{Json, json_eq}
use sshvault.Record.Fields.{Payload, fields_from_payload}
use sshvault.Merge.{live}
use sshvault.Vault.Fail.{Result, done, fail, corrupt, duplicate, no_such_record, ◌>>=◌}
use sshvault.Vault.Guard.{validate_payload}
use sshvault.Vault.Frames.{RawEntry}
use sshvault.Vault.Keyring.{Keyring, open_entry, has_share}
use sshvault.Vault.Store.{Vault, Disk, Codec, next_clock, append, raw_entries}

-- A live record of the kind, with this name.
unfoldable pub is_named : Kind → Text → Text → Record → Bool
unfolding live get json_eq
is_named kind name_field name r =
    live r
    && kind_eq r.kind kind
    && elim (get name_field r.fields) [ none ↦ false | some f ↦ json_eq f.value (Json.string name) ]

unfoldable pub first_named : Kind → Text → Text → List Record → Option Record
unfolding is_named
first_named kind name_field name [] = none
first_named kind name_field name (r ∷ rs) =
    if is_named kind name_field name r then some r else first_named kind name_field name rs

-- The records come in the order of their ids.
unfoldable pub find : Kind → Text → Text → Vault → Option Record
unfolding first_named values
find kind name_field name v = first_named kind name_field name (values v.state)

-- What is written before an append that fails stays written.
unfoldable pub appended {ℓ} :
    {A : Type ℓ} → A → Vault → Disk → Result (Vault × Disk) → Result A × Vault × Disk
appended a v d (done (v', d')) = (done a, v', d')
appended a v d (fail e) = (fail e, v, d)

-- The fuel of the check is enough, so that `none` does not come up.
unfoldable pub accepted : Option (Result (Unit {0})) → Result (Unit {0})
accepted none = fail corrupt
accepted (some r) = r

-- An unchanged value keeps its clock.
abbrev pub keep_clock : Option Field → Field → Field
keep_clock none f = f
keep_clock (some prev) f = if json_eq prev.value f.value then record f { clock = prev.clock } else f

-- The loop of `edit` over the new fields
unfoldable pub keep_clocks : Fields → Fields → Fields
unfolding get
keep_clocks old [] = []
keep_clocks old ((k, f) ∷ fs) = (k, keep_clock (get k old) f) ∷ keep_clocks old fs

-- The share that a frame that opens belongs to, or the default share.
share_or_nil : Option Record → Uuid
share_or_nil none = nil_uuid
share_or_nil (some r) = r.share_id

module _ (c : Codec) where
  -- The tombstone of the record; the entry id, the nonce and the time are given.
  unfoldable pub remove :
      Text → Text → ℕ → Kind → Text → Text → Vault → Disk → Result (Unit {0}) × Vault × Disk
  unfolding find next_clock append appended
  remove entry_id nonce now kind name_field name v d = elim (find kind name_field name v) [
    | none ↦ (fail no_such_record, v, d)
    | some old ↦
        let (clock, v', d') = next_clock v d in
        let tomb : Record = record {
          id = old.id;
          kind = tombstone;
          fields = [];
          deleted_at = some clock;
          clock = clock;
          device_id = v'.meta.device_id;
          modified_at = now;
          share_id = old.share_id;
        } in
        appended tt v' d' (append c entry_id nonce tomb v' d')
  ]

  -- The record's id, the entry id, the nonce and the time are given.
  unfoldable pub add_in :
      {T : Type 0} ⦃form : Payload T⦄
      → Text
      → Text
      → ℕ
      → Uuid
      → Kind
      → Text
      → Text
      → T
      → Uuid
      → Vault
      → Disk
      → Result Uuid × Vault × Disk
  unfolding validate_payload accepted has_share find next_clock fields_from_payload append appended
  add_in entry_id nonce now id kind name_field name p share v d =
      elim (accepted (validate_payload kind p)) [
        | fail e ↦ (fail e, v, d)
        | done _ ↦
            if not (has_share v.keyring share)
            then (fail corrupt, v, d)
            else elim (find kind name_field name v) [
              | some _ ↦ (fail duplicate, v, d)
              | none ↦
                  let (clock, v', d') = next_clock v d in
                  let rec : Record = record {
                    id = id;
                    kind = kind;
                    fields = fields_from_payload p clock;
                    deleted_at = none;
                    clock = clock;
                    device_id = v'.meta.device_id;
                    modified_at = now;
                    share_id = share;
                  } in
                  appended id v' d' (append c entry_id nonce rec v' d')
            ]
      ]

  unfoldable pub add :
      {T : Type 0} ⦃form : Payload T⦄
      → Text
      → Text
      → ℕ
      → Uuid
      → Kind
      → Text
      → Text
      → T
      → Vault
      → Disk
      → Result Uuid × Vault × Disk
  unfolding add_in
  add entry_id nonce now id kind name_field name p v d =
      add_in entry_id nonce now id kind name_field name p nil_uuid v d

  unfoldable pub edit :
      {T : Type 0} ⦃form : Payload T⦄
      → Text
      → Text
      → ℕ
      → Kind
      → Text
      → Text
      → T
      → Vault
      → Disk
      → Result (Unit {0}) × Vault × Disk
  unfolding validate_payload accepted find next_clock fields_from_payload keep_clocks append
      appended
  edit entry_id nonce now kind name_field name p v d = elim (accepted (validate_payload kind p)) [
    | fail e ↦ (fail e, v, d)
    | done _ ↦ elim (find kind name_field name v) [
      | none ↦ (fail no_such_record, v, d)
      | some old ↦
          let (clock, v', d') = next_clock v d in
          let rec : Record = record {
            id = old.id;
            kind = kind;
            fields = keep_clocks old.fields (fields_from_payload p clock);
            deleted_at = old.deleted_at;
            clock = clock;
            device_id = v'.meta.device_id;
            modified_at = now;
            share_id = old.share_id;
          } in
          appended tt v' d' (append c entry_id nonce rec v' d')
    ]
  ]

  unfoldable pub tag_all : Keyring → List RawEntry → Result (List (Text × Text × Uuid))
  unfolding open_entry share_or_nil ◌>>=◌
  tag_all kr [] = done []
  tag_all kr ((id, blob) ∷ fs) = do
    opened ← open_entry c.decrypt c.from_slice id blob kr
    rest ← tag_all kr fs
    done ((id, blob, share_or_nil opened) ∷ rest)

  unfoldable pub raw_entries_tagged : Vault → Disk → Result (List (Text × Text × Uuid))
  unfolding raw_entries tag_all ◌>>=◌
  raw_entries_tagged v d = do frames ← raw_entries d; tag_all v.keyring frames
