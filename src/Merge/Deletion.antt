-- ===== src/Merge/Deletion.antt =====
-- When a merged record is deleted: a tombstone wins exactly when it is later than every field on
-- both sides, and later merges cannot bring the record back with older fields.
use sshvault.Prelude.{
  ◌≡◌, refl, ◌∙◌, ◌↔◌, true, Option, none, some, [], ◌∷◌, arith, Option-cases, inl, inr,
}
use sshvault.Prelude.Order.{Text, text_ord}
use sshvault.OrdMap.{get, values, IsSorted}
use sshvault.OrdMap.Laws.{get-head, get-cons_some}
use sshvault.Record.{Clock, Field, Fields, Record, clock_lt, max_clock, all_older, is_deleted}
use sshvault.Merge.{merge, merge_fields}
use sshvault.Merge.Reads.{get-merge_fields, merge_fields-IsSorted, later}

-- Every field of the map was written before `d`.
abbrev pub IsBefore : Clock → Fields → Type 0
IsBefore d m = (k : Text) (f : Field) → get k m ≡ some f → clock_lt f.clock d ≡ true

all_older-IsBefore :
    (d : Clock) (m : Fields) → IsSorted m → all_older d (values m) ≡ true → IsBefore d m
unfolding all_older values get
all_older-IsBefore d [] s h k f e = cc
all_older-IsBefore d ((n, g) ∷ m) s h k f e =
    ground (arith, λ (p : all_older d (values m) ≡ true). all_older-IsBefore d m s.1 p k f)

IsBefore-all_older :
    (d : Clock) (m : Fields) → IsSorted m → IsBefore d m → all_older d (values m) ≡ true
unfolding all_older values get
IsBefore-all_older d [] s h = refl
IsBefore-all_older d ((n, g) ∷ m) s h = ground (
  arith,
  h n g (get-head n g m),
  IsBefore-all_older d m s.1 (λ k f e. h k f (get-cons_some k n g f m s.0 e)),
)

-- A record is deleted exactly when it has a tombstone clock that is later than every field.
pub is_deleted_iff :
    (r : Record)
    → IsSorted r.fields
    → (is_deleted r ≡ true) ↔ ((d : Clock) × (r.deleted_at ≡ some d) × IsBefore d r.fields)
unfolding is_deleted all_older
is_deleted_iff r s = (to, from)
  where
    to : is_deleted r ≡ true → (d : Clock) × (r.deleted_at ≡ some d) × IsBefore d r.fields
    to h = elim (Option-cases r.deleted_at) [
      | inl e ↦ absurd (ground arith)
      | inr (d, e) ↦ (d, e, all_older-IsBefore d r.fields s (ground arith))
    ]

    from : (d : Clock) × (r.deleted_at ≡ some d) × IsBefore d r.fields → is_deleted r ≡ true
    from (d, e, b) = rw (e, is_deleted) (IsBefore-all_older d r.fields s b)

module _ (d : Clock) (a b : Fields) (sa : IsSorted a) (sb : IsSorted b) where
  merge_fields-IsBefore : IsBefore d a → IsBefore d b → IsBefore d (merge_fields a b)
  merge_fields-IsBefore ha hb k f e = ground (arith, get-merge_fields k a b sa sb, ha k f, hb k f)

  IsBefore-left : IsBefore d (merge_fields a b) → IsBefore d a
  IsBefore-left h k f e = left (get k b) f e (λ g p. h k g (get-merge_fields k a b sa sb ∙ p))
    where
      left :
          (y : Option Field) (f : Field)
          → get k a ≡ some f
          → ((g : Field) → later (get k a) y ≡ some g → clock_lt g.clock d ≡ true)
          → clock_lt f.clock d ≡ true
      left none f e h = h f (rw e)
      left (some g) f e h = ground (arith, h f, h g)

  IsBefore-right : IsBefore d (merge_fields a b) → IsBefore d b
  IsBefore-right h k g e = right (get k a) g e (λ f p. h k f (get-merge_fields k a b sa sb ∙ p))
    where
      right :
          (x : Option Field) (g : Field)
          → get k b ≡ some g
          → ((f : Field) → later x (get k b) ≡ some f → clock_lt f.clock d ≡ true)
          → clock_lt g.clock d ≡ true
      right none g e h = h g (rw e)
      right (some f) g e h = ground (arith, h f, h g)

-- The merge of two snapshots is deleted exactly when the later of their tombstone clocks is later
-- than every field of both.
pub is_deleted-merge_iff :
    (a b : Record)
    → IsSorted a.fields
    → IsSorted b.fields
    → (is_deleted (merge a b) ≡ true) ↔ (
        (d : Clock) × (max_clock a.deleted_at b.deleted_at ≡ some d)
        × IsBefore d a.fields
        × IsBefore d b.fields)
unfolding merge
is_deleted-merge_iff a b sa sb =
    let deleted = is_deleted_iff (merge a b) (merge_fields-IsSorted a.fields b.fields sa) in
    (
      λ h.
          let (d, e, before) = deleted.0 h in
          (
            d,
            e,
            IsBefore-left d a.fields b.fields sa sb before,
            IsBefore-right d a.fields b.fields sa sb before,
          ),
      λ (d, e, ha, hb). deleted.1 (d, e, merge_fields-IsBefore d a.fields b.fields sa sb ha hb),
    )
