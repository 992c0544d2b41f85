-- ===== src/Record.antt =====
-- src/record.rs: clocks, kinds, fields and record snapshots. A `Uuid` is the number that its 16
-- bytes spell, most significant first, which has the same order.
pub mod Values
pub mod Payloads
pub mod Reading
pub mod Fields
pub mod Roundtrip
use Prim.Native.Nat.Ordering.{lt, eq, gt}
use Prim.Native.Nat.{Ordering}
use sshvault.Prelude.{
  ℕ, compare, ◌≡◌, Bool, true, false, ◌&&◌, Option, none, some, List, [], ◌∷◌, arith, foldl,
}
use sshvault.Prelude.Order.{Ord, Text, text_ord, then_cmp, is_eq}
use sshvault.OrdMap.{OrdMap, from_entries, values}
use Values.{Json}

abbrev pub Uuid : Type 0
Uuid = ℕ

abbrev pub nil_uuid : Uuid
nil_uuid = 0

pub record Clock : Type 0 where
  pub lamport : ℕ
  pub device : Uuid

-- The derived order: by lamport count, then by device.
abbrev pub cmp_clock : Clock → Clock → Ordering
cmp_clock a b = then_cmp (compare a.lamport b.lamport) (compare a.device b.device)

abbrev is_ge : Ordering → Bool
is_ge lt = false
is_ge eq = true
is_ge gt = true

-- `a >= b`
abbrev pub clock_ge : Clock → Clock → Bool
clock_ge a b = is_ge (cmp_clock a b)

abbrev pub is_lt : Ordering → Bool
is_lt lt = true
is_lt eq = false
is_lt gt = false

-- `a < b`
abbrev pub clock_lt : Clock → Clock → Bool
clock_lt a b = is_lt (cmp_clock a b)

-- `Option<Clock>::max`: `None` is below every clock.
unfoldable pub max_clock : Option Clock → Option Clock → Option Clock
max_clock none b = b
max_clock (some a) none = some a
max_clock (some a) (some b) = elim (cmp_clock a b) [ lt ↦ some b | eq ↦ some b | gt ↦ some a ]

pub data Kind : Type 0 where
  tombstone host snippet port_forward key_meta private_key share_name : Kind

-- The derived order of kinds is that of their declaration.
abbrev pub kind_rank : Kind → ℕ
kind_rank tombstone = 0
kind_rank host = 1
kind_rank snippet = 2
kind_rank port_forward = 3
kind_rank key_meta = 4
kind_rank private_key = 5
kind_rank share_name = 6

-- `a == b` on kinds
abbrev pub kind_eq : Kind → Kind → Bool
kind_eq a b = is_eq (compare (kind_rank a) (kind_rank b))

-- `Ord::max` on kinds
unfoldable pub max_kind : Kind → Kind → Kind
max_kind a b = elim (compare (kind_rank a) (kind_rank b)) [ lt ↦ b | eq ↦ b | gt ↦ a ]

pub record Field : Type 0 where
  pub value : Json
  pub clock : Clock

abbrev pub Fields : Type 0
Fields = OrdMap Text Field

pub record Record : Type 0 where
  pub id : Uuid
  pub kind : Kind
  pub fields : Fields
  pub deleted_at : Option Clock
  pub clock : Clock
  pub device_id : Uuid
  pub modified_at : ℕ
  pub share_id : Uuid

unfoldable pub all_older : Clock → List Field → Bool
all_older d [] = true
all_older d (f ∷ fs) = clock_lt f.clock d && all_older d fs

-- A record is deleted when its tombstone clock beats every field clock.
unfoldable pub is_deleted : Record → Bool
unfolding all_older values
is_deleted r = elim r.deleted_at [ none ↦ false | some d ↦ all_older d (values r.fields) ]
