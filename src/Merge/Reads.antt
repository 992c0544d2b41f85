-- ===== src/Merge/Reads.antt =====
-- The merged field map reads, at each name, as the later of the two fields.
use sshvault.Prelude.{◌≡◌, Option, none, some, [], ◌∷◌, arith, if◌then◌else◌}
use sshvault.Prelude.Order.{Text, text_ord, cmp_text, is_eq, text_eq_of}
use sshvault.OrdMap.{get, Above, IsSorted}
use sshvault.OrdMap.Laws.{get-insert, insert-IsSorted, get-Above, Above-trans}
use sshvault.Record.{Field, Fields, clock_ge}
use sshvault.Merge.{keep_newer, merge_fields}

-- The specification at one name: the later field, and the left one of two with equal clocks.
abbrev pub later : Option Field → Option Field → Option Field
later none b = b
later (some a) none = some a
later (some a) (some b) = if clock_ge a.clock b.clock then some a else some b

keep_newer-IsSorted :
    (m : Fields) (n : Text) (f : Field) → IsSorted m → IsSorted (keep_newer m (n, f))
unfolding keep_newer
keep_newer-IsSorted m n f s = ground (arith, insert-IsSorted n f m s)

get-keep_newer :
    (k n : Text) (f : Field) (m : Fields)
    → IsSorted m
    → get k (keep_newer m (n, f)) ≡ later (get k m) (if is_eq (cmp_text k n) then some f else none)
unfolding keep_newer
get-keep_newer k n f m s = ground (arith, get-insert n k f m s, text_eq_of k n)

pub merge_fields-IsSorted : (a b : Fields) → IsSorted a → IsSorted (merge_fields a b)
unfolding merge_fields
merge_fields-IsSorted a [] s = s
merge_fields-IsSorted a ((n, f) ∷ b) s =
    merge_fields-IsSorted (keep_newer a (n, f)) b (keep_newer-IsSorted a n f s)

-- What the head of a sorted map adds to a read.
later-cons :
    (k n : Text) (f : Field) (x : Option Field) (b : Fields)
    → Above n b
    → later (later x (if is_eq (cmp_text k n) then some f else none)) (get k b)
      ≡ later x (get k ((n, f) ∷ b))
unfolding get
later-cons k n f x b a = ground (arith, text_eq_of k n, get-Above k b, Above-trans k n b)

-- A field of the merge is, of the two snapshots' fields of its name, the one with the later
-- clock, and the first one's where the clocks are equal.
pub get-merge_fields :
    (k : Text) (a b : Fields)
    → IsSorted a
    → IsSorted b
    → get k (merge_fields a b) ≡ later (get k a) (get k b)
unfolding merge_fields get
get-merge_fields k a [] s t = ground arith
get-merge_fields k a ((n, f) ∷ b) s t =
    rw (get-merge_fields k (keep_newer a (n, f)) b (keep_newer-IsSorted a n f s) t.1)
      (rw (get-keep_newer k n f a s) (later-cons k n f (get k a) b t.0))

pub later_assoc : (a b c : Option Field) → later (later a b) c ≡ later a (later b c)
later_assoc a b c = ground arith

pub later_idem : (a : Option Field) → later a a ≡ a
later_idem a = ground arith
