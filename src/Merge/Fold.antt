-- ===== src/Merge/Fold.antt =====
-- The merged state reads, at each id, as the merge of that record's snapshots; what a snapshot
-- adds does not depend on when, or how often, it is absorbed.
use sshvault.Prelude.{
  ◌≡◌, refl, sym, subst, ap, ◌∙◌, Option-cases, Option, none, some, [], arith, inl, inr,
  if◌then◌else◌, compare,
}
use sshvault.Prelude.Order.{nat_ord, nat_refl, nat_eq, is_eq, Ordering-cases}
use sshvault.OrdMap.{get, insert, IsSorted}
use sshvault.OrdMap.Laws.{get-insert, insert-IsSorted, ext}
use sshvault.Record.{Uuid, Record}
use sshvault.Merge.{State, merge, absorb}
use sshvault.Merge.Laws.{Writes, IsWritten, merge_assoc, merge_idem, merge_comm, merge-IsWritten}

-- What absorbing `r` makes of the snapshot that stands at its id.
abbrev pub joined : Option Record → Record → Record
joined none r = r
joined (some cur) r = merge cur r

absorb_lem : (s : State) (r : Record) → absorb s r ≡ insert r.id (joined (get r.id s) r) s
unfolding absorb
absorb_lem s r = elim (Option-cases (get r.id s)) [
  | inl e ↦ rw (e, absorb)
  | inr (c, e) ↦ rw (e, absorb)
]

pub absorb-IsSorted : (s : State) (r : Record) → IsSorted s → IsSorted (absorb s r)
absorb-IsSorted s r h = rw absorb_lem (insert-IsSorted r.id _ s h)

pub get-absorb :
    (k : Uuid) (s : State) (r : Record)
    → IsSorted s
    → get k (absorb s r)
      ≡ (if is_eq (compare k r.id) then some (joined (get r.id s) r) else get k s)
get-absorb k s r h = rw absorb_lem (get-insert r.id k _ s h)

-- A state that the program can hold: each record stands at its id and holds writes of the vault.
pub record IsState (w : Writes) (s : State) : Type 0 where
  pub sorted : IsSorted s
  pub at : (k : Uuid) (r : Record) → get k s ≡ some r → (r.id ≡ k) × IsWritten w r

pub IsState-empty : (w : Writes) → IsState w []
unfolding get
IsState-empty w = record { sorted = tt; at = λ k r e. cc }

module _ (w : Writes) where
  joined-IsWritten :
      (o : Option Record) (r : Record)
      → ((c : Record) → o ≡ some c → (c.id ≡ r.id) × IsWritten w c)
      → IsWritten w r
      → ((joined o r).id ≡ r.id) × IsWritten w (joined o r)
  unfolding merge
  joined-IsWritten none r h wr = (refl, wr)
  joined-IsWritten (some c) r h wr =
      ((h c refl).0, merge-IsWritten w c r (h c refl).1 wr (h c refl).0)

  pub absorb-IsState :
      (s : State) (r : Record) → IsState w s → IsWritten w r → IsState w (absorb s r)
  absorb-IsState s r h wr = record {
    sorted = absorb-IsSorted s r h.sorted;
    at = λ k x e. elim (Ordering-cases (compare k r.id)) [
      | inl l ↦ h.at k x (rw (get-absorb k s r h.sorted, l) at e)
      | inr (inl g) ↦ h.at k x (rw (get-absorb k s r h.sorted, g) at e)
      | inr (inr q) ↦
          let p = joined-IsWritten (get r.id s) r (h.at r.id) wr in
          let e' : joined (get r.id s) r ≡ x = ground (arith, get-absorb k s r h.sorted) in
          (
            ap (λ (t : Record). t.id) (sym e') ∙ p.0 ∙ sym (nat_eq k r.id q),
            subst (IsWritten w) e' p.1,
          )
    ];
  }

  -- Two snapshots of one record are joined to the same in both orders, and one joined twice
  -- counts once.
  joined_comm :
      (o : Option Record) (x y : Record)
      → ((c : Record) → o ≡ some c → (c.id ≡ x.id) × IsWritten w c)
      → IsWritten w x
      → IsWritten w y
      → x.id ≡ y.id
      → joined (some (joined o x)) y ≡ joined (some (joined o y)) x
  joined_comm none x y h wx wy same = merge_comm w x y wx wy same
  joined_comm (some c) x y h wx wy same =
      let wc = (h c refl).1 in
      cc (
        merge_assoc c x y wc.sorted wx.sorted wy.sorted,
        merge_assoc c y x wc.sorted wy.sorted wx.sorted,
        merge_comm w x y wx wy same,
      )

  joined_idem :
      (o : Option Record) (x : Record)
      → ((c : Record) → o ≡ some c → (c.id ≡ x.id) × IsWritten w c)
      → IsWritten w x
      → joined (some (joined o x)) x ≡ joined o x
  joined_idem none x h wx = merge_idem x wx.sorted
  joined_idem (some c) x h wx =
      let wc = (h c refl).1 in
      cc (merge_assoc c x x wc.sorted wx.sorted wx.sorted, merge_idem x wx.sorted)

  -- A snapshot absorbed a second time changes nothing.
  pub absorb_twice :
      (s : State) (x : Record) → IsState w s → IsWritten w x → absorb (absorb s x) x ≡ absorb s x
  absorb_twice s x h wx =
      let h1 = absorb-IsState s x h wx in
      ext (absorb (absorb s x) x) (absorb s x) (absorb-IsSorted _ x h1.sorted) h1.sorted λ k.
        ground (
          arith,
          get-absorb k (absorb s x) x h1.sorted,
          get-absorb k s x h.sorted,
          get-absorb x.id s x h.sorted,
          nat_refl x.id,
          joined_idem (get x.id s) x (h.at x.id) wx,
        )

  -- Two snapshots can be absorbed in either order.
  pub absorb_swap :
      (s : State) (x y : Record)
      → IsState w s
      → IsWritten w x
      → IsWritten w y
      → absorb (absorb s x) y ≡ absorb (absorb s y) x
  absorb_swap s x y h wx wy =
      let hx = absorb-IsState s x h wx in
      let hy = absorb-IsState s y h wy in
      ext (absorb (absorb s x) y) (absorb (absorb s y) x) (absorb-IsSorted _ y hx.sorted)
        (absorb-IsSorted _ x hy.sorted)
        λ k. ground (
          arith,
          get-absorb k (absorb s x) y hx.sorted,
          get-absorb k (absorb s y) x hy.sorted,
          get-absorb k s x h.sorted,
          get-absorb k s y h.sorted,
          get-absorb y.id s x h.sorted,
          get-absorb x.id s y h.sorted,
          joined_comm (get x.id s) x y (h.at x.id) wx wy,
        )
