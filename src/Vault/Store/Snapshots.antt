-- ===== src/Vault/Store/Snapshots.antt =====
-- Replaying the log from a snapshot.
use mathlib.Core.List.{append_assoc}
use sshvault.Prelude.{
  ℕ, ◌≡◌, refl, ap, sym, Bool, true, false, Option, none, some, List, [], ◌∷◌, ◌++◌, foldl, length,
  drop-append, length-append, leb, arith, All, subst, inl, inr, Option-cases, Bool-cases,
}
use sshvault.Prelude.Order.{nat_ord}
use sshvault.OrdMap.{get, IsSorted, values}
use sshvault.OrdMap.Entries.{All-insert, All-get, from_entries-IsSorted, map-values}
use sshvault.Record.{Uuid, Record}
use sshvault.Merge.{State, absorb, merge, merge_all}
use sshvault.Merge.Fold.{absorb-IsSorted}
use sshvault.Vault.Fail.{Result, done, fail, ◌>>=◌, Result-cases}
use sshvault.Vault.Frames.{RawEntry, parse_frames}
use sshvault.Vault.Keyring.{Keyring, held_share_epochs, open_entry}
use sshvault.Vault.Store.{
  Vault, Disk, Snapshot, Codec, contains, all_in, same_epoch_set, snapshot_state, fold_frames,
  open_all, start_of, usable, fold_from_snapshot, compact, absorb_opened,
}

-- Each record stands at its own id.
IsKeyed : State → Type 0
IsKeyed s = IsSorted s × All (λ (e : Uuid × Record). e.1.id ≡ e.0) s

absorb-IsKeyed : (s : State) (r : Record) → IsKeyed s → IsKeyed (absorb s r)
unfolding IsKeyed absorb merge
absorb-IsKeyed s r (h, k) = (
  absorb-IsSorted s r h,
  elim (Option-cases (get r.id s)) [
    | inl e ↦ rw (absorb, e) (All-insert (λ (f : Uuid × Record). f.1.id ≡ f.0) r.id r s refl k)
    | inr (cur, e) ↦
        rw (absorb, e)
          (All-insert (λ (f : Uuid × Record). f.1.id ≡ f.0) r.id (merge cur r) s
            (All-get (λ (f : Uuid × Record). f.1.id ≡ f.0) r.id cur s k e) k)
  ],
)

foldl-IsKeyed : (s : State) (rs : List Record) → IsKeyed s → IsKeyed (foldl absorb s rs)
foldl-IsKeyed s [] h = h
foldl-IsKeyed s (r ∷ rs) h = foldl-IsKeyed (absorb s r) rs (absorb-IsKeyed s r h)

-- The values of a state make the state again.
restored :
    (s : State) (n : ℕ) (hs : List (Uuid × ℕ))
    → IsKeyed s
    → snapshot_state (record { covered = n; shares = hs; records = values s }) ≡ s
unfolding snapshot_state IsKeyed
restored s n hs (h, k) = rw (map-values (λ (r : Record). r.id) s k) (from_entries-IsSorted s h)

contains-here : (p : Uuid × ℕ) (ps qs : List (Uuid × ℕ)) → contains (qs ++ (p ∷ ps)) p ≡ true
unfolding contains
contains-here (i, n) ps [] = ground arith
contains-here (i, n) ps ((j, m) ∷ qs) = ground (arith, contains-here (i, n) ps qs)

all_in_self : (ps qs : List (Uuid × ℕ)) → all_in ps (qs ++ ps) ≡ true
unfolding all_in
all_in_self [] qs = refl
all_in_self (p ∷ ps) qs =
    rw (all_in, contains-here p ps qs)
      (subst (λ l. all_in ps l ≡ true) (append_assoc qs (p ∷ []) ps)
        (all_in_self ps (qs ++ (p ∷ []))))

same_epoch_set_self : (ps : List (Uuid × ℕ)) → same_epoch_set ps ps ≡ true
unfolding same_epoch_set
same_epoch_set_self ps = ground (arith, all_in_self ps [])

abbrev counted : ℕ → State → Result (State × ℕ)
counted n s = done (s, n)

retag :
    (r : Result State) (n : ℕ)
    → (r >>= counted n) ≡ ((r >>= counted 0) >>= λ (t : State × ℕ). counted n t.0)
unfolding ◌>>=◌
retag (done s) n = refl
retag (fail e) n = refl

fits {ℓ} : {A : Type ℓ} (xs ys : List A) → leb (length xs) (length (xs ++ ys)) ≡ true
fits xs ys = ground (arith, length-append xs ys)

module _ (c : Codec) (kr : Keyring) where
  fold_frames-open_all :
      (s : State) (fs : List RawEntry) (rs : List Record)
      → open_all c kr fs ≡ done rs
      → fold_frames c kr s fs ≡ done (foldl absorb s rs)
  unfolding open_all fold_frames ◌>>=◌ absorb_opened
  fold_frames-open_all s [] rs h =
      let none_left : [] ≡ rs = ground arith in ap (λ l. done (foldl absorb s l)) none_left
  fold_frames-open_all s ((id, blob) ∷ fs) rs h =
      elim (Result-cases (open_entry c.decrypt c.from_slice id blob kr)) [
        | inl (none, e) ↦ elim (Result-cases (open_all c kr fs)) [
          | inl (ts, q) ↦
              let same : ts ≡ rs = ground arith in
              subst (λ l. fold_frames c kr s ((id, blob) ∷ fs) ≡ done (foldl absorb s l)) same
                (rw (fold_frames, e) (fold_frames-open_all s fs ts q))
          | inr (x, q) ↦ absurd (ground arith)
        ]
        | inl (some r, e) ↦ elim (Result-cases (open_all c kr fs)) [
          | inl (ts, q) ↦
              let same : r ∷ ts ≡ rs = ground arith in
              subst (λ l. fold_frames c kr s ((id, blob) ∷ fs) ≡ done (foldl absorb s l)) same
                (rw (fold_frames, e) (fold_frames-open_all (absorb s r) fs ts q))
          | inr (x, q) ↦ absurd (ground arith)
        ]
        | inr (x, e) ↦ absurd (ground arith)
      ]

  fold_frames-append :
      (s : State) (fs gs : List RawEntry)
      → fold_frames c kr s (fs ++ gs) ≡ (fold_frames c kr s fs >>= λ t. fold_frames c kr t gs)
  unfolding fold_frames ◌>>=◌
  fold_frames-append s [] gs = refl
  fold_frames-append s ((id, blob) ∷ fs) gs =
      elim (Result-cases (open_entry c.decrypt c.from_slice id blob kr)) [
        | inl (o, e) ↦ rw (fold_frames, e) (fold_frames-append (absorb_opened c s o) fs gs)
        | inr (x, e) ↦ rw (fold_frames, e) refl
      ]

  -- A snapshot of the records of a prefix stands for the prefix.
  fold_from_snapshot-prefix :
      (frames tail : List RawEntry) (rs : List Record)
      → open_all c kr frames ≡ done rs
      → fold_from_snapshot c kr (frames ++ tail) (
          some (record {
            covered = length frames;
            shares = held_share_epochs kr;
            records = values (merge_all rs);
          }))
        ≡ (fold_from_snapshot c kr (frames ++ tail) none >>= λ r. done (r.0, length frames))
  unfolding fold_from_snapshot start_of usable ◌>>=◌ IsKeyed merge_all
  fold_from_snapshot-prefix frames tail rs h =
      rw
        (
          fits frames tail,
          same_epoch_set_self (held_share_epochs kr),
          restored (merge_all rs) (length frames) (held_share_epochs kr)
              (foldl-IsKeyed [] rs (tt, tt)),
          drop-append frames tail,
          fold_frames-append [] frames tail,
          fold_frames-open_all [] frames rs h,
        )
        (retag (fold_frames c kr (merge_all rs) tail) (length frames))

abbrev snapshot_after : Result (Bool × Vault × Disk) → Option Snapshot
snapshot_after (done (b, v, d)) = d.snapshot
snapshot_after (fail e) = none

-- What a pass that wrote nothing says.
clash :
    (v v' : Vault) (d d' : Disk)
    → ◌≡◌ {A = Result (Bool × Vault × Disk)} (done (false, v, d)) (done (true, v', d'))
    → ⊥
clash v v' d d' h = ground arith

compact-inv :
    (c : Codec) (v v' : Vault) (d d' : Disk) (frames : List RawEntry)
    → parse_frames d.log ≡ done frames
    → compact c v d ≡ done (true, v', d')
    → (rs : List Record) × (open_all c v.keyring frames ≡ done rs)
      × (d'.snapshot
          ≡ some (record {
            covered = length frames;
            shares = held_share_epochs v.keyring;
            records = values (merge_all rs);
          }))
unfolding compact ◌>>=◌
compact-inv c v v' d d' frames p h = elim (Result-cases (open_all c v.keyring frames)) [
  | inl (rs, e) ↦ (
    rs,
    e,
    elim (Bool-cases (leb (length frames) (length (merge_all rs)))) [
      | inl b ↦ absurd (clash _ v' d d' (rw (compact, p, e, b) at h))
      | inr b ↦ sym (ap snapshot_after (rw (compact, p, e, b) at h))
    ],
  )
  | inr (x, e) ↦ absurd (ground arith)
]

-- Compacting changes no later reading: with the same keys, the log and all that is appended to it
-- replay from the snapshot to what they replay to in full, errors included.
pub compact-replays :
    (c : Codec) (v v' : Vault) (d d' : Disk) (frames tail : List RawEntry)
    → parse_frames d.log ≡ done frames
    → compact c v d ≡ done (true, v', d')
    → fold_from_snapshot c v.keyring (frames ++ tail) d'.snapshot
      ≡ (fold_from_snapshot c v.keyring (frames ++ tail) none >>= λ r. done (r.0, length frames))
compact-replays c v v' d d' frames tail p h =
    let (rs, e, q) = compact-inv c v v' d d' frames p h in
    rw q (fold_from_snapshot-prefix c v.keyring frames tail rs e)
