-- ===== src/Merge.antt =====
-- src/merge.rs: the merge of two snapshots of a record, field by field the last writer wins, and
-- the fold of any number of snapshots.
pub mod Reads
pub mod Laws
pub mod Fold
pub mod Order
pub mod Deletion
use sshvault.Prelude.{Bool, ◌&&◌, not, Option, none, some, List, [], ◌∷◌, foldl, max, if◌then◌else◌}
use sshvault.Prelude.Order.{Text, text_ord, nat_ord}
use sshvault.OrdMap.{OrdMap, get, insert}
use sshvault.Record.{
  Uuid, Kind, tombstone, Field, Fields, Record, clock_ge, max_clock, max_kind, kind_eq, is_deleted,
}

-- One round of the loop over `b.fields`: an entry is replaced unless its clock is as late.
unfoldable pub keep_newer : Fields → Text × Field → Fields
keep_newer fields (name, fb) = elim (get name fields) [
  | none ↦ insert name fb fields
  | some fa ↦ if clock_ge fa.clock fb.clock then fields else insert name fb fields
]

unfoldable pub merge_fields : Fields → Fields → Fields
merge_fields = foldl keep_newer

unfoldable pub merge : Record → Record → Record
merge a b =
    let newer = if clock_ge a.clock b.clock then a else b in
    let older = if clock_ge a.clock b.clock then b else a in
    record {
      id = a.id;
      kind = max_kind a.kind b.kind;
      fields = merge_fields a.fields b.fields;
      deleted_at = max_clock a.deleted_at b.deleted_at;
      clock = newer.clock;
      device_id = newer.device_id;
      modified_at = max newer.modified_at older.modified_at;
      share_id = newer.share_id;
    }

-- The merged state, a `HashMap<Uuid, Record>`.
abbrev pub State : Type 0
State = OrdMap Uuid Record

-- `state.entry(rec.id).and_modify(merge).or_insert(rec)`
unfoldable pub absorb : State → Record → State
absorb state rec = elim (get rec.id state) [
  | none ↦ insert rec.id rec state
  | some cur ↦ insert rec.id (merge cur rec) state
]

unfoldable pub merge_all : List Record → State
merge_all = foldl absorb []

unfoldable pub live : Record → Bool
unfolding is_deleted
live rec = not (is_deleted rec) && not (kind_eq rec.kind tombstone)
