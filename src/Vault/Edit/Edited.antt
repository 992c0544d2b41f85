-- ===== src/Vault/Edit/Edited.antt =====
-- What `edit` of src/vault.rs leaves in the vault, through the merge with the record that was there.
use sshvault.Prelude.{
  ℕ, ◌≡◌, refl, ap, sym, subst, ◌∙◌, true, false, Option, none, some, List, [], ◌∷◌, arith, inl,
  inr, All, Bool-cases, Option-cases, if◌then◌else◌,
}
use sshvault.Prelude.Order.{Text, text_ord, cmp_text, text_eq_of, nat_ord, nat_refl, Ordering-cases}
use sshvault.OrdMap.{OrdMap, get, insert, values, Above, IsSorted}
use sshvault.OrdMap.Laws.{insert-IsSorted, get-head, get-cons_some}
use sshvault.OrdMap.Entries.{All-get}
use sshvault.Record.{Uuid, Kind, Clock, clock_ge, clock_lt, Field, Fields, Record}
use sshvault.Record.Values.{Json, json_eq}
use sshvault.Record.Fields.{Payload, collect, stamp, fields_from_payload}
use sshvault.Merge.{State, absorb, merge, merge_fields}
use sshvault.Merge.Fold.{get-absorb}
use sshvault.Merge.Reads.{later, get-merge_fields}
use sshvault.Vault.Fail.{done}
use sshvault.Vault.Guard.{validate_payload}
use sshvault.Vault.Keyring.{current_for}
use sshvault.Vault.Store.{Vault, Disk, Codec, next_clock, append, write_frame}
use sshvault.Vault.Edit.{is_named, first_named, find, keep_clock, keep_clocks, edit}
use sshvault.Vault.Edit.Added.{next_clock_keeps, append_lem}

-- The specification at one name: what stood there, what the payload has there, and the new clock.
abbrev pub edited : Option Field → Option Json → Clock → Option Field
edited old none clock = old
edited none (some j) clock = some (record { value = j; clock = clock })
edited (some f) (some j) clock =
    if json_eq f.value j then some f else some (record { value = j; clock = clock })

-- Above and sorted look at the keys alone.
module _ (clock : Clock) where
  stamp-Above : (k : Text) (m : OrdMap Text Json) → Above k m → Above k (stamp clock m)
  unfolding stamp
  stamp-Above k [] a = tt
  stamp-Above k ((j, v) ∷ m) a = (a.0, stamp-Above k m a.1)

  stamp-IsSorted : (m : OrdMap Text Json) → IsSorted m → IsSorted (stamp clock m)
  unfolding stamp
  stamp-IsSorted [] s = tt
  stamp-IsSorted ((j, v) ∷ m) s = (stamp-Above j m s.0, stamp-IsSorted m s.1)

module _ (old : Fields) where
  keep_clocks-Above : (k : Text) (m : Fields) → Above k m → Above k (keep_clocks old m)
  unfolding keep_clocks
  keep_clocks-Above k [] a = tt
  keep_clocks-Above k ((j, f) ∷ m) a = (a.0, keep_clocks-Above k m a.1)

  keep_clocks-IsSorted : (m : Fields) → IsSorted m → IsSorted (keep_clocks old m)
  unfolding keep_clocks
  keep_clocks-IsSorted [] s = tt
  keep_clocks-IsSorted ((j, f) ∷ m) s = (keep_clocks-Above j m s.0, keep_clocks-IsSorted m s.1)

pub collect-IsSorted :
    (m : OrdMap Text Json) (ws : List (Text × Option Json)) → IsSorted m → IsSorted (collect m ws)
unfolding collect
collect-IsSorted m [] s = s
collect-IsSorted m ((k, none) ∷ ws) s = collect-IsSorted m ws s
collect-IsSorted m ((k, some v) ∷ ws) s =
    collect-IsSorted (insert k v m) ws (insert-IsSorted k v m s)

-- The field that `edit` writes.
abbrev written : Option Field → Option Json → Clock → Option Field
written old none clock = none
written old (some j) clock = some (keep_clock old (record { value = j; clock = clock }))

get-keep_clocks :
    (k : Text) (old : Fields) (m : OrdMap Text Json) (clock : Clock)
    → get k (keep_clocks old (stamp clock m)) ≡ written (get k old) (get k m) clock
unfolding get keep_clocks stamp
get-keep_clocks k old [] clock = refl
get-keep_clocks k old ((j, v) ∷ m) clock = elim (Ordering-cases (cmp_text k j)) [
  | inl e ↦ rw (get, e) refl
  | inr (inl e) ↦ rw (get, e) (get-keep_clocks k old m clock)
  | inr (inr e) ↦
      rw (get, e)
        (ap (λ i. some (keep_clock (get i old) (record { value = v; clock = clock })))
          (sym (text_eq_of k j e)))
]

ge_self : (c : Clock) → clock_ge c c ≡ true
ge_self c = ground arith

lt_not_ge : (a b : Clock) → clock_lt a b ≡ true → clock_ge a b ≡ false
lt_not_ge a b h = ground arith

IsBefore : Clock → Option Field → Type 0
IsBefore clock none = Unit
IsBefore clock (some f) = clock_lt f.clock clock ≡ true

later-written :
    (old : Option Field) (j : Option Json) (clock : Clock)
    → IsBefore clock old
    → later old (written old j clock) ≡ edited old j clock
unfolding IsBefore
later-written none none clock h = refl
later-written none (some j) clock h = refl
later-written (some f) none clock h = refl
later-written (some f) (some j) clock h = elim (Bool-cases (json_eq f.value j)) [
  | inl e ↦ rw (e, ge_self f.clock) refl
  | inr e ↦ rw (e, lt_not_ge f.clock clock h) refl
]

-- What a search finds stands in the state.
found :
    (kind : Kind) (field name : Text) (r : Record) (s : State)
    → IsSorted s
    → first_named kind field name (values s) ≡ some r
    → (k : Uuid) × (get k s ≡ some r)
unfolding first_named values
found kind field name r [] st h = absurd (ground arith)
found kind field name r ((k, w) ∷ s) st h = elim (Bool-cases (is_named kind field name w)) [
  | inl b ↦ (k, get-head k w s ∙ sym (rw (first_named, values, b) refl) ∙ h)
  | inr b ↦
      let (i, g) = found kind field name r s st.1 (sym (rw (first_named, values, b) refl) ∙ h) in
      (i, get-cons_some i k w r s st.0 g)
]

-- Under its own id, where the state is kept by ids.
found_id :
    (kind : Kind) (field name : Text) (r : Record) (s : State)
    → IsSorted s
    → All (λ e. e.1.id ≡ e.0) s
    → first_named kind field name (values s) ≡ some r
    → get r.id s ≡ some r
found_id kind field name r s st keyed h =
    let (k, g) = found kind field name r s st h in
    subst (λ i. get i s ≡ some r) (sym (All-get (λ e. e.1.id ≡ e.0) k r s keyed g)) g

IsBefore-get :
    (clock : Clock) (k : Text) (m : Fields)
    → All (λ e. clock_lt e.1.clock clock ≡ true) m
    → IsBefore clock (get k m)
unfolding IsBefore
IsBefore-get clock k m h = elim (Option-cases (get k m)) [
  | inl e ↦ rw e tt
  | inr (f, e) ↦ rw e (All-get (λ e. clock_lt e.1.clock clock ≡ true) k f m h e)
]

-- The record that is there after a snapshot of it came in.
get-absorb_same :
    (s : State) (old r : Record)
    → r.id ≡ old.id
    → IsSorted s
    → get old.id s ≡ some old
    → get old.id (absorb s r) ≡ some (merge old r)
get-absorb_same s old r e st g = get-absorb old.id s r st ∙ rw (e, nat_refl old.id, g) refl

module _ (c : Codec) {T : Type 0} ⦃form : Payload T⦄ where
  -- An edit with a payload that is allowed, of a record whose name is found and whose share's key is
  -- held, leaves under the record's id, at each field, what it left there if the payload has no such
  -- field or the same value, its clock included, and else the payload's value with the new clock; if
  -- the state is kept by ids and no field of the record has a clock as late as the new one.
  pub edit-get :
      (entry_id nonce : Text) (now : ℕ) (kind : Kind) (name_field name : Text) (p : T)
      (old : Record) (key : Text) (v : Vault) (d : Disk)
      → validate_payload kind p ≡ some (done tt)
      → find kind name_field name v ≡ some old
      → current_for v.keyring old.share_id ≡ some key
      → IsSorted v.state
      → All (λ e. e.1.id ≡ e.0) v.state
      → IsSorted old.fields
      → All (λ e. clock_lt e.1.clock (next_clock v d).0 ≡ true) old.fields
      → (r : Record) × (v' : Vault) × (d' : Disk) × (edit c entry_id nonce now kind name_field name
            p v d
          ≡ (done tt, v', d'))
        × (get old.id v'.state ≡ some r)
        × ((k : Text)
            → get k r.fields
              ≡ edited (get k old.fields) (get k (collect [] (form.to_value p))) (next_clock v d).0)
  unfolding edit find append write_frame fields_from_payload merge merge_fields
  edit-get entry_id nonce now kind name_field name p old key v d ok is held st keyed so b =
      let (clock, v1, d1) = next_clock v d in
      let m = collect [] (form.to_value p) in
      let new = keep_clocks old.fields (stamp clock m) in
      let rec : Record = record {
        id = old.id;
        kind = kind;
        fields = new;
        deleted_at = old.deleted_at;
        clock = clock;
        device_id = v1.meta.device_id;
        modified_at = now;
        share_id = old.share_id;
      } in
      let kept = next_clock_keeps v d in
      let sorted =
        keep_clocks-IsSorted old.fields (stamp clock m)
          (stamp-IsSorted clock m (collect-IsSorted [] (form.to_value p) tt)) in
      (
        merge old rec,
        record v1 { state = absorb v1.state rec },
        write_frame (entry_id, c.seal key (c.to_vec rec) entry_id nonce) d1,
        rw
            (
              edit,
              ok,
              is,
              append_lem c entry_id nonce key rec v1 d1
                  (ap (λ kr. current_for kr old.share_id) kept.1 ∙ held),
            )
            refl,
        ap (λ s. get old.id (absorb s rec)) kept.0
            ∙ get-absorb_same v.state old rec refl st
                (found_id kind name_field name old v.state st keyed is),
        λ k.
            get-merge_fields k old.fields new so sorted
            ∙ ap (later (get k old.fields)) (get-keep_clocks k old.fields m clock)
            ∙ later-written (get k old.fields) (get k m) clock (IsBefore-get clock k old.fields b),
      )
