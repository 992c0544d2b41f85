-- ===== src/Merge/Order.antt =====
-- The merged state depends only on which snapshots were seen: not on their order, nor on repeats.
use mathlib.Core.List.{Memᴰ, foldl-append}
use mathlib.Core.List.Memᴰ.{head, tail}
use sshvault.Prelude.{◌≡◌, refl, sym, ap, ◌∙◌, subst, List, [], ◌∷◌, ◌++◌, foldl, All}
use sshvault.Record.{Record}
use sshvault.Merge.{State, absorb, merge_all}
use sshvault.Merge.Laws.{Writes, IsWritten}
use sshvault.Merge.Fold.{IsState, IsState-empty, absorb-IsState, absorb_twice, absorb_swap}

module _ (w : Writes) where
  abbrev pub AllWritten : List Record → Type 0
  AllWritten = All (IsWritten w)

  pub foldl-absorb-IsState :
      (s : State) (l : List Record) → IsState w s → AllWritten l → IsState w (foldl absorb s l)
  foldl-absorb-IsState s [] h a = h
  foldl-absorb-IsState s (r ∷ l) h a =
      foldl-absorb-IsState (absorb s r) l (absorb-IsState w s r h a.0) a.1

  -- A snapshot absorbed last could have been absorbed first.
  foldl-absorb_first :
      (s : State) (l : List Record) (x : Record)
      → IsState w s
      → AllWritten l
      → IsWritten w x
      → absorb (foldl absorb s l) x ≡ foldl absorb (absorb s x) l
  foldl-absorb_first s [] x h a wx = refl
  foldl-absorb_first s (r ∷ l) x h a wx =
      foldl-absorb_first (absorb s r) l x (absorb-IsState w s r h a.0) a.1 wx
      ∙ ap (λ t. foldl absorb t l) (absorb_swap w s r x h a.0 wx)

  -- A snapshot that was absorbed already adds nothing.
  foldl-absorb-mem :
      (s : State) (l : List Record) (x : Record)
      → IsState w s
      → AllWritten l
      → Memᴰ x l
      → absorb (foldl absorb s l) x ≡ foldl absorb s l
  foldl-absorb-mem s [] x h a m = elim m [ ]
  foldl-absorb-mem s (r ∷ l) x h a (head e) =
      let wx = subst (IsWritten w) (sym e) a.0 in
      foldl-absorb_first (absorb s r) l x (absorb-IsState w s r h a.0) a.1 wx
      ∙ ap (λ t. foldl absorb t l)
          (subst (λ t. absorb (absorb s t) x ≡ absorb s t) e (absorb_twice w s x h wx))
  foldl-absorb-mem s (r ∷ l) x h a (tail m) =
      foldl-absorb-mem (absorb s r) l x (absorb-IsState w s r h a.0) a.1 m

  foldl-absorb-All :
      (s : State) (l m : List Record)
      → IsState w s
      → AllWritten l
      → All (λ x. Memᴰ x l) m
      → foldl absorb (foldl absorb s l) m ≡ foldl absorb s l
  foldl-absorb-All s l [] h a b = refl
  foldl-absorb-All s l (x ∷ m) h a b =
      ap (λ t. foldl absorb t m) (foldl-absorb-mem s l x h a b.0) ∙ foldl-absorb-All s l m h a b.1

  -- The snapshots of two lists can be absorbed in either order of the lists.
  foldl-absorb_comm :
      (s : State) (l m : List Record)
      → IsState w s
      → AllWritten l
      → AllWritten m
      → foldl absorb (foldl absorb s l) m ≡ foldl absorb (foldl absorb s m) l
  foldl-absorb_comm s l [] h a b = refl
  foldl-absorb_comm s l (x ∷ m) h a b =
      ap (λ t. foldl absorb t m) (foldl-absorb_first s l x h a b.0)
      ∙ foldl-absorb_comm (absorb s x) l m (absorb-IsState w s x h b.0) a b.1

-- Two lists that hold the same snapshots, in any order and with any repeats, have the same merged
-- state, if every snapshot holds writes of one vault.
pub merge_all-same :
    (w : Writes) (l m : List Record)
    → All (IsWritten w) l
    → All (IsWritten w) m
    → All (λ x. Memᴰ x l) m
    → All (λ x. Memᴰ x m) l
    → merge_all l ≡ merge_all m
unfolding merge_all
merge_all-same w l m a b ml lm =
    let h = IsState-empty w in
    sym (foldl-absorb-All w [] l m h a ml)
    ∙ foldl-absorb_comm w [] l m h a b
    ∙ foldl-absorb-All w [] m l h b lm

-- Merging a log and then a later piece of it is merging the whole log.
pub merge_all-append : (l m : List Record) → merge_all (l ++ m) ≡ foldl absorb (merge_all l) m
unfolding merge_all
merge_all-append l m = foldl-append absorb [] l m
