-- ===== src/OrdMap.antt =====
-- `BTreeMap` (record fields) and `HashMap` (merged state): association lists in the order of
-- their keys, so that two maps with the same entries are equal.
pub mod Laws
pub mod Entries
use sshvault.Prelude.{Option, none, some, List, [], ◌∷◌, foldl}
use sshvault.Prelude.Order.{Ord, ◌≺◌}
use Prim.Native.Nat.Ordering.{lt, eq, gt}

abbrev pub OrdMap {ℓ κ} : Type ℓ → Type κ → Type (ℓ ⊔ κ)
OrdMap K V = List (K × V)

module _ {ℓ κ} {K : Type ℓ} {V : Type κ} ⦃o : Ord K⦄ where
  -- `map.get(&k)`
  unfoldable pub get : K → OrdMap K V → Option V
  get k [] = none
  get k ((j, v) ∷ m) = elim (o.cmp k j) [ lt ↦ none | eq ↦ some v | gt ↦ get k m ]

  -- `map.insert(k, v)`: a value that is there is replaced.
  unfoldable pub insert : K → V → OrdMap K V → OrdMap K V
  insert k v [] = (k, v) ∷ []
  insert k v ((j, w) ∷ m) = elim (o.cmp k j) [
    | lt ↦ (k, v) ∷ (j, w) ∷ m
    | eq ↦ (k, v) ∷ m
    | gt ↦ (j, w) ∷ insert k v m
  ]

  -- `entries.collect::<Map>()`: entries are written in turn, so the last of a key stays.
  unfoldable pub from_entries : List (K × V) → OrdMap K V
  from_entries = foldl (λ m e. insert e.0 e.1 m) []

  -- Every key of the map is above `k`.
  abbrev pub Above : K → OrdMap K V → Type 0
  Above k [] = Unit
  Above k ((j, v) ∷ m) = (k ≺ j) × Above k m

  abbrev pub IsSorted : OrdMap K V → Type 0
  IsSorted [] = Unit
  IsSorted ((k, v) ∷ m) = Above k m × IsSorted m

-- `map.values()`
unfoldable pub values {ℓ κ} : {K : Type ℓ} {V : Type κ} → OrdMap K V → List V
values [] = []
values ((k, v) ∷ m) = v ∷ values m
