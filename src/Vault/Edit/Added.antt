-- ===== src/Vault/Edit/Added.antt =====
-- What `add_in` of src/vault.rs leaves in the vault.
use sshvault.Prelude.{
  ℕ, compare, ◌≡◌, ◌≢◌, refl, ap, sym, ◌∙◌, true, false, none, some, [], ◌∷◌, ◌++◌, arith, inl, inr,
  Bool-cases, Option-cases,
}
use sshvault.Prelude.Order.{Text, text_ord, nat_ord, nat_refl, Ordering-cases}
use sshvault.OrdMap.{OrdMap, get, insert, values}
use sshvault.Record.{Uuid, Kind, tombstone, Clock, Record, kind_eq, kind_rank, is_deleted}
use sshvault.Record.Values.{Json, json_eq_refl}
use sshvault.Record.Fields.{Payload, collect, stamp, fields_from_payload, payload}
use sshvault.Record.Roundtrip.{field_values-stamp}
use sshvault.Merge.{State, absorb, live}
use sshvault.Vault.Fail.{done}
use sshvault.Vault.Guard.{validate_payload}
use sshvault.Vault.Frames.{frame_of}
use sshvault.Vault.Keyring.{Keyring, current_for, has_share, share}
use sshvault.Vault.Store.{Vault, Disk, Codec, next_clock, append, write_frame, absorb_disk_meta}
use sshvault.Vault.Edit.{is_named, first_named, find, add_in}

-- The clock's tick touches neither the state nor the keys nor the log.
pub next_clock_keeps :
    (v : Vault) (d : Disk)
    → ((next_clock v d).1.state ≡ v.state)
      × ((next_clock v d).1.keyring ≡ v.keyring)
      × ((next_clock v d).2.log ≡ d.log)
unfolding next_clock
next_clock_keeps v d = elim (Option-cases d.meta) [
  | inl e ↦ rw (absorb_disk_meta, e) (refl, refl, refl)
  | inr (m, e) ↦ rw (absorb_disk_meta, e) (refl, refl, refl)
]

none_ne_some {ℓ} : {A : Type ℓ} {a : A} → none ≢ some a
none_ne_some h = ground arith

-- A record whose key is new, and that alone has the name, is the one that the name finds.
first_named-insert :
    (kind : Kind) (field name : Text) (id : Uuid) (r : Record) (s : State)
    → is_named kind field name r ≡ true
    → first_named kind field name (values s) ≡ none
    → get id s ≡ none
    → first_named kind field name (values (insert id r s)) ≡ some r
unfolding first_named values insert get
first_named-insert kind field name id r [] n h g = rw n refl
first_named-insert kind field name id r ((k, w) ∷ s) n h g = elim (Ordering-cases (compare id k)) [
  | inl e ↦ rw (insert, e, first_named, values, n) refl
  | inr (inr e) ↦ absurd (none_ne_some {a = w} (sym g ∙ rw (get, e) refl))
  | inr (inl e) ↦ elim (Bool-cases (is_named kind field name w)) [
    | inl b ↦ absurd (none_ne_some {a = w} (sym h ∙ rw (first_named, values, b) refl))
    | inr b ↦
        rw (insert, e, values, first_named, b)
          (first_named-insert kind field name id r s n (sym (rw (first_named, values, b) refl) ∙ h)
            (sym (rw (get, e) refl) ∙ g))
  ]
]

get-stamp :
    (c : Clock) (k : Text) (m : OrdMap Text Json) (j : Json)
    → get k m ≡ some j
    → get k (stamp c m) ≡ some (record { value = j; clock = c })
unfolding get stamp
get-stamp c k [] j h = absurd (ground arith)
get-stamp c k ((i, w) ∷ m) j h = ground (arith, get-stamp c k m j)

current_for-has_share :
    (kr : Keyring) (id : Uuid) (key : Text) → current_for kr id ≡ some key → has_share kr id ≡ true
unfolding current_for has_share share
current_for-has_share kr id key h = ground arith

no_tombstone : (k : Kind) → k ≢ tombstone → kind_eq k tombstone ≡ false
no_tombstone k = elim k as (λ k. k ≢ tombstone → kind_eq k tombstone ≡ false) [
  | Kind.tombstone ↦ λ n. absurd (n refl)
  | _ ↦ λ _. refl
]

live-named :
    (kind : Kind) (field name : Text) (r : Record) (clock : Clock)
    → kind ≢ tombstone
    → r.kind ≡ kind
    → r.deleted_at ≡ none
    → get field r.fields ≡ some (record { value = Json.string name; clock = clock })
    → is_named kind field name r ≡ true
unfolding is_named
live-named kind field name r clock n k e g =
    rw
      (
        is_named,
        live,
        is_deleted,
        e,
        k,
        no_tombstone kind n,
        nat_refl (kind_rank kind),
        g,
        json_eq_refl (Json.string name),
      )
      refl

pub append_lem :
    (c : Codec) (entry_id nonce key : Text) (r : Record) (v : Vault) (d : Disk)
    → current_for v.keyring r.share_id ≡ some key
    → append c entry_id nonce r v d
      ≡ done (
        record v { state = absorb v.state r },
        write_frame (entry_id, c.seal key (c.to_vec r) entry_id nonce) d,
      )
unfolding append
append_lem c entry_id nonce key r v d e = rw (append, e) refl

absorb_new : (s : State) (r : Record) → get r.id s ≡ none → absorb s r ≡ insert r.id r s
unfolding absorb
absorb_new s r e = rw (absorb, e) refl

module _ (c : Codec) {T : Type 0} ⦃form : Payload T⦄ where
  -- A payload that is allowed, under a name that no live record of its kind has, is added to a
  -- share whose key is held: the name then finds a record of the share that reads as the payload,
  -- and the log grows by its frame, sealed under the share's newest key, if the id is new and the
  -- payload has the name and is none of a tombstone.
  pub add_in-find :
      (entry_id nonce : Text) (now : ℕ) (id : Uuid) (kind : Kind) (name_field name : Text) (p : T)
      (share_id : Uuid) (key : Text) (v : Vault) (d : Disk)
      → validate_payload kind p ≡ some (done tt)
      → current_for v.keyring share_id ≡ some key
      → find kind name_field name v ≡ none
      → get id v.state ≡ none
      → kind ≢ tombstone
      → get name_field (collect [] (form.to_value p)) ≡ some (Json.string name)
      → form.InRange p
      → (r : Record) × (v' : Vault) × (d' : Disk) × (add_in c entry_id nonce now id kind name_field
            name p share_id v d
          ≡ (done id, v', d'))
        × (find kind name_field name v' ≡ some r)
        × (payload r ≡ some p)
        × (r.share_id ≡ share_id)
        × (d'.log ≡ d.log ++ frame_of (entry_id, c.seal key (c.to_vec r) entry_id nonce))
  unfolding add_in find append write_frame payload fields_from_payload
  add_in-find entry_id nonce now id kind name_field name p share_id key v d ok held free new kt
        named h =
      let (clock, v1, d1) = next_clock v d in
      let rec : Record = record {
        id = id;
        kind = kind;
        fields = fields_from_payload p clock;
        deleted_at = none;
        clock = clock;
        device_id = v1.meta.device_id;
        modified_at = now;
        share_id = share_id;
      } in
      let kept = next_clock_keeps v d in
      (
        rec,
        record v1 { state = absorb v1.state rec },
        write_frame (entry_id, c.seal key (c.to_vec rec) entry_id nonce) d1,
        rw
            (
              add_in,
              ok,
              current_for-has_share v.keyring share_id key held,
              free,
              append_lem c entry_id nonce key rec v1 d1
                  (ap (λ kr. current_for kr share_id) kept.1 ∙ held),
            )
            refl,
        ap (λ s. first_named kind name_field name (values (absorb s rec))) kept.0
            ∙ ap (λ s. first_named kind name_field name (values s)) (absorb_new v.state rec new)
            ∙ first_named-insert kind name_field name id rec v.state
                (live-named kind name_field name rec clock kt refl refl (
                  get-stamp clock name_field (collect [] (form.to_value p)) (Json.string name)
                    named))
                free new,
        ap form.from_value (field_values-stamp clock (collect [] (form.to_value p)))
            ∙ form.read-write p h,
        refl,
        ap (λ l. l ++ frame_of (entry_id, c.seal key (c.to_vec rec) entry_id nonce)) kept.2,
      )
