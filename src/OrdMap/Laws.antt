-- ===== src/OrdMap/Laws.antt =====
-- Reads after writes, and that a sorted map is known by what it reads.
use sshvault.Prelude.{◌≡◌, refl, sym, subst, inl, inr, none, some, [], ◌∷◌, arith, if◌then◌else◌}
use sshvault.Prelude.Order.{Ord, ◌≺◌, is_eq, Ordering-cases}
use sshvault.OrdMap.{OrdMap, get, insert, Above, IsSorted}

module _ {ℓ κ} {K : Type ℓ} {V : Type κ} ⦃o : Ord K⦄ where
  -- A write is read back at its key, and nowhere else.
  pub get-insert :
      (k j : K) (v : V) (m : OrdMap K V)
      → IsSorted m
      → get j (insert k v m) ≡ (if is_eq (o.cmp j k) then some v else get j m)
  unfolding get insert
  get-insert k j v [] s = ground arith
  get-insert k j v ((i, w) ∷ m) s = ground (
    arith,
    get-insert k j v m s.1,
    o.eq_of_tie k i,
    o.eq_of_tie j i,
    o.eq_of_tie j k,
    o.cmp_self k,
    o.cmp_trans j k i,
    o.gt_of_swap k i,
    o.gt_of_swap j i,
    o.lt_of_swap k i,
    o.lt_of_swap j i,
    o.lt_of_swap j k,
    o.cmp_trans i j k,
    o.cmp_trans k j i,
  )

  pub Above-insert : (b k : K) (v : V) (m : OrdMap K V) → b ≺ k → Above b m → Above b (insert k v m)
  unfolding insert
  Above-insert b k v [] h a = (h, tt)
  Above-insert b k v ((j, w) ∷ m) h a = ground (arith, Above-insert b k v m h a.1)

  pub Above-trans : (b k : K) (m : OrdMap K V) → b ≺ k → Above k m → Above b m
  Above-trans b k [] h a = tt
  Above-trans b k ((j, w) ∷ m) h a = (o.cmp_trans b k j h a.0, Above-trans b k m h a.1)

  -- A write keeps the map sorted.
  pub insert-IsSorted : (k : K) (v : V) (m : OrdMap K V) → IsSorted m → IsSorted (insert k v m)
  unfolding insert
  insert-IsSorted k v [] s = (tt, tt)
  insert-IsSorted k v ((j, w) ∷ m) s = ground (
    arith,
    insert-IsSorted k v m s.1,
    o.eq_of_tie k j,
    o.lt_of_swap k j,
    Above-trans k j m,
    Above-insert j k v m,
  )

  pub get-Above : (k : K) (m : OrdMap K V) → Above k m → get k m ≡ none
  unfolding get
  get-Above k [] a = refl
  get-Above k ((j, w) ∷ m) a = ground arith

  -- A key of the tail is not the head's.
  pub get-cons_some :
      (i k : K) (v u : V) (m : OrdMap K V)
      → Above k m
      → get i m ≡ some u
      → get i ((k, v) ∷ m) ≡ some u
  unfolding get
  get-cons_some i k v u m a h =
      ground (arith, get-Above i m, Above-trans i k m, o.eq_of_tie i k, get-Above k m)

  pub get-head : (k : K) (v : V) (m : OrdMap K V) → get k ((k, v) ∷ m) ≡ some v
  unfolding get
  get-head k v m = ground (arith, o.cmp_self k)

  get_below : (i k : K) (v : V) (m : OrdMap K V) → i ≺ k → get i ((k, v) ∷ m) ≡ none
  unfolding get
  get_below i k v m h = ground arith

  -- The tails of two maps that read alike read alike.
  get-tail :
      (k : K) (v w : V) (m n : OrdMap K V)
      → Above k m
      → Above k n
      → ((i : K) → get i ((k, v) ∷ m) ≡ get i ((k, w) ∷ n))
      → (i : K) → get i m ≡ get i n
  unfolding get
  get-tail k v w m n a b h i = ground (
    arith,
    h i,
    o.eq_of_tie i k,
    get-Above i m,
    get-Above i n,
    Above-trans i k m,
    Above-trans i k n,
    get-Above k m,
    get-Above k n,
  )

  get-empty : (k : K) → get {V = V} k [] ≡ none
  unfolding get
  get-empty k = refl

  ext-cons :
      (j k : K) (v w : V) (m n : OrdMap K V)
      → j ≡ k
      → IsSorted ((j, v) ∷ m)
      → IsSorted ((k, w) ∷ n)
      → ((i : K) → get i ((j, v) ∷ m) ≡ get i ((k, w) ∷ n))
      → (((i : K) → get i m ≡ get i n) → m ≡ n)
      → (j, v) ∷ m ≡ (k, w) ∷ n
  ext-cons j k v w m n same s t h rest =
      let t' : Above j n = subst (λ x. Above x n) (sym same) t.0 in
      let h' : (i : K) → get i ((j, v) ∷ m) ≡ get i ((j, w) ∷ n) =
        subst (λ x. (i : K) → get i ((j, v) ∷ m) ≡ get i ((x, w) ∷ n)) (sym same) h in
      cc (same, h' j, get-head j v m, get-head j w n, rest (get-tail j v w m n s.0 t' h'))

  -- Sorted maps that read alike are equal.
  pub ext : (m n : OrdMap K V) → IsSorted m → IsSorted n → ((i : K) → get i m ≡ get i n) → m ≡ n
  ext [] [] s t h = refl
  ext [] ((k, v) ∷ n) s t h = cc (h k, get-head k v n, get-empty k)
  ext ((k, v) ∷ m) [] s t h = cc (h k, get-head k v m, get-empty k)
  ext ((j, v) ∷ m) ((k, w) ∷ n) s t h = elim (Ordering-cases (o.cmp j k)) [
    | inl below ↦ cc (h j, get-head j v m, get_below j k w n below)
    | inr (inl above) ↦ cc (h k, get-head k w n, get_below k j v m (o.lt_of_swap j k above))
    | inr (inr same) ↦ ext-cons j k v w m n (o.eq_of_tie j k same) s t h (ext m n s.1 t.1)
  ]
