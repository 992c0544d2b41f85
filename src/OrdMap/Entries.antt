-- ===== src/OrdMap/Entries.antt =====
-- The entries of a map: what holds of each, and the map that they make again.
use mathlib.Core.List.{append_assoc, append-nil}
use sshvault.Prelude.{
  ◌≡◌, refl, ap, ap₂, sym, subst, ◌∙◌, some, [], ◌∷◌, ◌++◌, foldl, All, All-append, arith, map, inl,
  inr,
}
use sshvault.Prelude.Order.{Ord, ◌≺◌, Ordering-cases}
use sshvault.OrdMap.{OrdMap, get, insert, from_entries, values, Above, IsSorted}

module _ {ℓ κ} {K : Type ℓ} {V : Type κ} ⦃o : Ord K⦄ where
  module _ {μ} (P : K × V → Type μ) where
    pub All-insert : (k : K) (v : V) (m : OrdMap K V) → P (k, v) → All P m → All P (insert k v m)
    unfolding insert
    All-insert k v [] p h = (p, tt)
    All-insert k v ((j, w) ∷ m) p h = elim (Ordering-cases (o.cmp k j)) [
      | inl e ↦ rw (All, insert, e) (p, h)
      | inr (inl e) ↦ rw (All, insert, e) (h.0, All-insert k v m p h.1)
      | inr (inr e) ↦ rw (All, insert, e) (p, h.1)
    ]

    pub All-get : (k : K) (v : V) (m : OrdMap K V) → All P m → get k m ≡ some v → P (k, v)
    unfolding get
    All-get k v [] h e = absurd (ground arith)
    All-get k v ((j, w) ∷ m) h e = elim (Ordering-cases (o.cmp k j)) [
      | inl c ↦ absurd (ground arith)
      | inr (inl c) ↦ All-get k v m h.1 (ground arith)
      | inr (inr c) ↦
          let same : w ≡ v = ground arith in
          subst (λ e. P e) (ap₂ (λ a b. (a, b)) (sym (o.eq_of_tie k j c)) same) h.0
    ]

  insert-last :
      (k : K) (v : V) (m : OrdMap K V) → All (λ e. e.0 ≺ k) m → insert k v m ≡ m ++ ((k, v) ∷ [])
  unfolding insert
  insert-last k v [] h = refl
  insert-last k v ((j, w) ∷ m) h =
      rw (insert, o.gt_of_swap j k h.0) (ap (λ r. (j, w) ∷ r) (insert-last k v m h.1))

  Above-All : (k : K) (m : OrdMap K V) → Above k m → All (λ e. k ≺ e.0) m
  Above-All k [] h = tt
  Above-All k ((j, w) ∷ m) h = (h.0, Above-All k m h.1)

  joined_below :
      (acc m : OrdMap K V) (e : K × V)
      → All (λ f. All (λ a. a.0 ≺ f.0) acc) m
      → All (λ f. e.0 ≺ f.0) m
      → All (λ f. All (λ a. a.0 ≺ f.0) (acc ++ (e ∷ []))) m
  joined_below acc [] e h k = tt
  joined_below acc (f ∷ m) e h k =
      (All-append (λ a. a.0 ≺ f.0) acc (e ∷ []) h.0 (k.0, tt), joined_below acc m e h.1 k.1)

  foldl-insert :
      (acc m : OrdMap K V)
      → All (λ f. All (λ a. a.0 ≺ f.0) acc) m
      → IsSorted m
      → foldl (λ n e. insert e.0 e.1 n) acc m ≡ acc ++ m
  foldl-insert acc [] h s = sym (append-nil acc)
  foldl-insert acc ((k, v) ∷ m) h s =
      ap (λ a. foldl (λ n e. insert e.0 e.1 n) a m) (insert-last k v acc h.0)
      ∙ foldl-insert (acc ++ ((k, v) ∷ [])) m (joined_below acc m (k, v) h.1 (Above-All k m s.0))
          s.1
      ∙ append_assoc acc ((k, v) ∷ []) m

  All-above : (m : OrdMap K V) → All (λ f. All (λ (a : K × V). a.0 ≺ f.0) []) m
  All-above [] = tt
  All-above (f ∷ m) = (tt, All-above m)

  -- A sorted map is made again of its entries.
  pub from_entries-IsSorted : (m : OrdMap K V) → IsSorted m → from_entries m ≡ m
  unfolding from_entries
  from_entries-IsSorted m s = foldl-insert [] m (All-above m) s

  -- The values, each with its own key, are the entries.
  pub map-values :
      (key : V → K) (m : OrdMap K V)
      → All (λ e. key e.1 ≡ e.0) m
      → map (λ v. (key v, v)) (values m) ≡ m
  unfolding values
  map-values key [] h = refl
  map-values key ((k, v) ∷ m) h = ap₂ (λ a b. (a, v) ∷ b) h.0 (map-values key m h.1)
