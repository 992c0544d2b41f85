-- ===== src/Merge/Laws.antt =====
-- The laws of `merge` on two and three snapshots.
use sshvault.Prelude.{◌≡◌, refl, ap, Option, none, some, arith}
use sshvault.Prelude.Order.{Text, text_ord}
use sshvault.OrdMap.{get, IsSorted}
use sshvault.OrdMap.Laws.{ext}
use sshvault.Record.{Uuid, Clock, Kind, Field, Fields, Record, max_clock, max_kind}
use sshvault.Record.Values.{Json}
use sshvault.Merge.{merge_fields, merge}
use sshvault.Merge.Reads.{later, later_assoc, later_idem, merge_fields-IsSorted, get-merge_fields}

-- What the devices of a vault wrote: the value that the write with a given clock gave to a field,
-- and the share that a record was created in.
pub record Writes : Type 0 where
  pub value : Uuid → Text → Clock → Json
  pub share : Uuid → Uuid

-- A snapshot holds writes of the vault: a clock names one write, as a device raises its counter at
-- every mutation, and the device of its clock made the snapshot.
pub record IsWritten (w : Writes) (r : Record) : Type 0 where
  pub sorted : IsSorted r.fields
  pub values : (k : Text) (f : Field) → get k r.fields ≡ some f → f.value ≡ w.value r.id k f.clock
  pub device : r.device_id ≡ r.clock.device
  pub share : r.share_id ≡ w.share r.id

later_comm :
    (v : Clock → Json) (x y : Option Field)
    → ((f : Field) → x ≡ some f → f.value ≡ v f.clock)
    → ((f : Field) → y ≡ some f → f.value ≡ v f.clock)
    → later x y ≡ later y x
later_comm v none none hx hy = refl
later_comm v none (some b) hx hy = refl
later_comm v (some a) none hx hy = refl
later_comm v (some a) (some b) hx hy = ground (arith, hx a refl, hy b refl)

module _ (a b c : Fields) (sa : IsSorted a) (sb : IsSorted b) (sc : IsSorted c) where
  merge_fields_assoc : merge_fields (merge_fields a b) c ≡ merge_fields a (merge_fields b c)
  merge_fields_assoc =
      let sab = merge_fields-IsSorted a b sa in
      let sbc = merge_fields-IsSorted b c sb in
      ext (merge_fields (merge_fields a b) c) (merge_fields a (merge_fields b c))
        (merge_fields-IsSorted _ c sab) (merge_fields-IsSorted a _ sa)
        λ k. cc (
          get-merge_fields k (merge_fields a b) c sab sc,
          get-merge_fields k a b sa sb,
          get-merge_fields k a (merge_fields b c) sa sbc,
          get-merge_fields k b c sb sc,
          later_assoc (get k a) (get k b) (get k c),
        )

merge_fields_idem : (a : Fields) → IsSorted a → merge_fields a a ≡ a
merge_fields_idem a s =
    ext (merge_fields a a) a (merge_fields-IsSorted a a s) s
      λ k. cc (get-merge_fields k a a s s, later_idem (get k a))

max_kind_assoc : (a b c : Kind) → max_kind (max_kind a b) c ≡ max_kind a (max_kind b c)
unfolding max_kind
max_kind_assoc a b c = ground arith

max_clock_assoc : (a b c : Option Clock) → max_clock (max_clock a b) c ≡ max_clock a (max_clock b c)
unfolding max_clock
max_clock_assoc a b c = ground arith

record_path :
    {r s : Record}
    → r.id ≡ s.id
    → r.kind ≡ s.kind
    → r.fields ≡ s.fields
    → r.deleted_at ≡ s.deleted_at
    → r.clock ≡ s.clock
    → r.device_id ≡ s.device_id
    → r.modified_at ≡ s.modified_at
    → r.share_id ≡ s.share_id
    → r ≡ s
record_path p1 p2 p3 p4 p5 p6 p7 p8 = λ i. record {
  id = p1 i;
  kind = p2 i;
  fields = p3 i;
  deleted_at = p4 i;
  clock = p5 i;
  device_id = p6 i;
  modified_at = p7 i;
  share_id = p8 i;
}

module _ (a b c : Record) where
  merge_clock_assoc : (merge (merge a b) c).clock ≡ (merge a (merge b c)).clock
  unfolding merge
  merge_clock_assoc = ground arith

  merge_device_assoc : (merge (merge a b) c).device_id ≡ (merge a (merge b c)).device_id
  unfolding merge
  merge_device_assoc = ground arith

  merge_share_assoc : (merge (merge a b) c).share_id ≡ (merge a (merge b c)).share_id
  unfolding merge
  merge_share_assoc = ground arith

  merge_time_assoc : (merge (merge a b) c).modified_at ≡ (merge a (merge b c)).modified_at
  unfolding merge
  merge_time_assoc = ground arith

-- Merging is associative on all snapshots with sorted field maps, also where clocks tie.
pub merge_assoc :
    (a b c : Record)
    → IsSorted a.fields
    → IsSorted b.fields
    → IsSorted c.fields
    → merge (merge a b) c ≡ merge a (merge b c)
unfolding merge
merge_assoc a b c sa sb sc =
    record_path refl (max_kind_assoc a.kind b.kind c.kind)
      (merge_fields_assoc a.fields b.fields c.fields sa sb sc)
      (max_clock_assoc a.deleted_at b.deleted_at c.deleted_at) (merge_clock_assoc a b c)
      (merge_device_assoc a b c) (merge_time_assoc a b c) (merge_share_assoc a b c)

max_kind_idem : (a : Kind) → max_kind a a ≡ a
unfolding max_kind
max_kind_idem a = ground arith

max_clock_idem : (a : Option Clock) → max_clock a a ≡ a
unfolding max_clock
max_clock_idem a = ground arith

merge_time_idem : (a : Record) → (merge a a).modified_at ≡ a.modified_at
unfolding merge
merge_time_idem a = ground arith

-- Merging a snapshot with itself changes nothing.
pub merge_idem : (a : Record) → IsSorted a.fields → merge a a ≡ a
unfolding merge
merge_idem a s =
    record_path refl (max_kind_idem a.kind) (merge_fields_idem a.fields s)
      (max_clock_idem a.deleted_at) (ground arith) (ground arith) (merge_time_idem a) (ground arith)

module _ (w : Writes) (a b : Record) (wa : IsWritten w a) (wb : IsWritten w b) where
  merge_fields_comm : a.id ≡ b.id → merge_fields a.fields b.fields ≡ merge_fields b.fields a.fields
  merge_fields_comm same =
      ext (merge_fields a.fields b.fields) (merge_fields b.fields a.fields)
        (merge_fields-IsSorted _ _ wa.sorted) (merge_fields-IsSorted _ _ wb.sorted)
        λ k. cc (
          get-merge_fields k a.fields b.fields wa.sorted wb.sorted,
          get-merge_fields k b.fields a.fields wb.sorted wa.sorted,
          later_comm (w.value a.id k) (get k a.fields) (get k b.fields) (wa.values k)
              (λ f e. rw same (wb.values k f e)),
        )

  merge_clock_comm : (merge a b).clock ≡ (merge b a).clock
  unfolding merge
  merge_clock_comm = ground arith

  merge_device_comm : (merge a b).device_id ≡ (merge b a).device_id
  unfolding merge
  merge_device_comm = ground (arith, wa.device, wb.device)

  merge_share_comm : a.id ≡ b.id → (merge a b).share_id ≡ (merge b a).share_id
  unfolding merge
  merge_share_comm same = ground (arith, wa.share, wb.share, ap w.share same)

  merge_time_comm : (merge a b).modified_at ≡ (merge b a).modified_at
  unfolding merge
  merge_time_comm = ground arith

max_kind_comm : (a b : Kind) → max_kind a b ≡ max_kind b a
unfolding max_kind
max_kind_comm a b = ground arith

max_clock_comm : (a b : Option Clock) → max_clock a b ≡ max_clock b a
unfolding max_clock
max_clock_comm a b = ground arith

-- Two snapshots of one record that hold writes of one vault merge to the same in both orders.
pub merge_comm :
    (w : Writes) (a b : Record)
    → IsWritten w a
    → IsWritten w b
    → a.id ≡ b.id
    → merge a b ≡ merge b a
unfolding merge
merge_comm w a b wa wb same =
    record_path same (max_kind_comm a.kind b.kind) (merge_fields_comm w a b wa wb same)
      (max_clock_comm a.deleted_at b.deleted_at) (merge_clock_comm w a b wa wb)
      (merge_device_comm w a b wa wb) (merge_time_comm w a b wa wb)
      (merge_share_comm w a b wa wb same)

-- The merge of two snapshots that hold writes of the vault holds writes of the vault.
pub merge-IsWritten :
    (w : Writes) (a b : Record)
    → IsWritten w a
    → IsWritten w b
    → a.id ≡ b.id
    → IsWritten w (merge a b)
unfolding merge
merge-IsWritten w a b wa wb same = record {
  sorted = merge_fields-IsSorted _ _ wa.sorted;
  values = λ k f e. ground (
    arith,
    get-merge_fields k a.fields b.fields wa.sorted wb.sorted,
    wa.values k f,
    wb.values k f,
  );
  device = ground (arith, wa.device, wb.device);
  share = ground (arith, wa.share, wb.share);
}
