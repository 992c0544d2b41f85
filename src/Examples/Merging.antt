-- ===== src/Examples/Merging.antt =====
-- Two snapshots of a record.
use mathlib.Core.List.Memᴰ.{head, tail}
use sshvault.Prelude.{ℕ, ◌^◌, ◌+◌, ◌≡◌, ◌↔◌, ◌⊎◌, ◌≤◌, refl, true, some, none, [], ◌∷◌, arith}
use sshvault.Prelude.Order.{Text, text_ord}
use sshvault.OrdMap.{get}
use sshvault.Record.{Record, Field, Clock, Kind, is_deleted, max_clock}
use sshvault.Record.Values.{Json}
use sshvault.Merge.{merge, merge_all, merge_fields}
use sshvault.Merge.Laws.{Writes, IsWritten, merge_assoc, merge_comm}
use sshvault.Merge.Order.{merge_all-same}
use sshvault.Merge.Deletion.{IsBefore, is_deleted-merge_iff}
use sshvault.Merge.Reads.{later, get-merge_fields}
use sshvault.Proto.{is_fresh}
use sshvault.Proto.Window.{is_fresh_iff}
use sshvault.Proto.Message.{signing_message-injective}

abbrev writes : Writes
writes = record { value = λ _ _ c. Json.number c.lamport; share = λ _. 0 }

abbrev at_time : ℕ → Clock
at_time n = record { lamport = n; device = 5 }

abbrev field_at : ℕ → Field
field_at n = record { value = Json.number n; clock = at_time n }

abbrev written : Record
written = record {
  id = 1;
  kind = Kind.host;
  fields = (b'p' ∷ [], field_at 1) ∷ [];
  deleted_at = none;
  clock = at_time 1;
  device_id = 5;
  modified_at = 10;
  share_id = 0;
}

abbrev edited : Record
edited = record written {
  fields = (b'p' ∷ [], field_at 2) ∷ [];
  clock = at_time 2;
  modified_at = 11;
}

abbrev removed : Record
removed = record written {
  kind = Kind.tombstone;
  fields = [];
  deleted_at = some (at_time 3);
  clock = at_time 3;
  modified_at = 12;
}

written-IsWritten : IsWritten writes written
unfolding get
written-IsWritten = record {
  sorted = (tt, tt);
  values = λ k f e. ground arith;
  device = refl;
  share = refl;
}

edited-IsWritten : IsWritten writes edited
unfolding get
edited-IsWritten = record {
  sorted = (tt, tt);
  values = λ k f e. ground arith;
  device = refl;
  share = refl;
}

merge_all-same_example :
    merge_all (written ∷ edited ∷ []) ≡ merge_all (edited ∷ written ∷ edited ∷ [])
merge_all-same_example =
    merge_all-same writes (written ∷ edited ∷ []) (edited ∷ written ∷ edited ∷ [])
      (written-IsWritten, (edited-IsWritten, tt))
      (edited-IsWritten, (written-IsWritten, (edited-IsWritten, tt)))
      (tail (head refl), (head refl, (tail (head refl), tt))) (tail (head refl), (head refl, tt))

merge_comm_example : merge written edited ≡ merge edited written
merge_comm_example = merge_comm writes written edited written-IsWritten edited-IsWritten refl

merge_assoc_example : merge (merge written edited) removed ≡ merge written (merge edited removed)
merge_assoc_example = merge_assoc written edited removed (tt, tt) (tt, tt) tt

is_deleted-merge_iff_example : (is_deleted (merge edited removed) ≡ true) ↔ (
    (d : Clock) × (max_clock none (some (at_time 3)) ≡ some d)
    × IsBefore d edited.fields
    × IsBefore d [])
is_deleted-merge_iff_example = is_deleted-merge_iff edited removed (tt, tt) tt

get-merge_fields_example :
    get (b'p' ∷ []) (merge_fields written.fields edited.fields)
    ≡ later (get (b'p' ∷ []) written.fields) (get (b'p' ∷ []) edited.fields)
get-merge_fields_example =
    get-merge_fields (b'p' ∷ []) written.fields edited.fields (tt, tt) (tt, tt)

is_fresh_iff_example : (is_fresh 1000 (1000 + 2 ^ 63) ≡ true) ↔ (
    ((1000 ≤ (1000 + 2 ^ 63) + 300) × ((1000 + 2 ^ 63) ≤ 1000 + 300))
    ⊎ ((1000 + 2 ^ 63) ≡ 1000 + 2 ^ 63))
is_fresh_iff_example = is_fresh_iff 1000 (1000 + 2 ^ 63) (omega arith) (omega arith) (omega arith)

signing_message-injective_example : (◌≡◌ {A = ℕ} 7 7) × (◌≡◌ {A = Text} (b'x' ∷ []) (b'x' ∷ []))
signing_message-injective_example =
    signing_message-injective 7 7 (b'x' ∷ []) (b'x' ∷ []) (omega arith) (omega arith) refl
