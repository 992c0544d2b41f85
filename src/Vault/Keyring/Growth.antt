-- ===== src/Vault/Keyring/Growth.antt =====
-- Keys are only added.
use sshvault.Prelude.{
  ℕ, suc, ◌≤◌, ◌≡◌, refl, List, [], ◌∷◌, ◌++◌, length, length-append, arith, ◌==◌, some, none,
  Bool-cases, inl, inr, ◌≢◌, Option-cases,
}
use sshvault.Prelude.Order.{Text}
use sshvault.Vault.Fail.{done, ◌>>=◌, Result-cases}
use sshvault.Record.{Uuid}
use sshvault.Vault.Keyring.{
  Keyring, ShareKeys, share, find_share, change_keys, push_share_key, set_share_keys,
  absorb_share_key, split_key_list, current_for, last, normalize,
}

-- How many keys of a share are held.
unfoldable pub key_count : Keyring → Uuid → ℕ
unfolding find_share
key_count kr id = elim (find_share id kr.shares) [ none ↦ 0 | some s ↦ length s.keys ]

-- The share that is changed and the others.
pub find_share-change_keys :
    (f : List Text → List Text) (ks : List Text) (id : Uuid) (ss : List ShareKeys)
    → find_share id (change_keys f ks id ss) ≡ elim (find_share id ss) [
      | none ↦ some (record { id = id; keys = ks })
      | some s ↦ some (record s { keys = f s.keys })
    ]
unfolding find_share change_keys
find_share-change_keys f ks id [] = ground arith
find_share-change_keys f ks id (s ∷ ss) = ground (arith, find_share-change_keys f ks id ss)

pub find_share-change_other :
    (f : List Text → List Text) (ks : List Text) (id j : Uuid) (ss : List ShareKeys)
    → j ≢ id
    → find_share j (change_keys f ks id ss) ≡ find_share j ss
unfolding find_share change_keys
find_share-change_other f ks id j [] n = ground arith
find_share-change_other f ks id j (s ∷ ss) n =
    ground (arith, find_share-change_other f ks id j ss n)

last-append : (ks : List Text) (k : Text) → last (ks ++ (k ∷ [])) ≡ some k
unfolding last
last-append [] k = refl
last-append (j ∷ []) k = refl
last-append (j ∷ i ∷ ks) k = last-append (i ∷ ks) k

pushed :
    (id : Uuid) (key : Text) (kr : Keyring) → current_for (push_share_key id key kr) id ≡ some key
unfolding current_for push_share_key
pushed id key kr = elim (Option-cases (find_share id kr.shares)) [
  | inl e ↦ ground (arith, find_share-change_keys (λ ks. ks ++ (key ∷ [])) (key ∷ []) id kr.shares)
  | inr (s, e) ↦ ground (
    arith,
    find_share-change_keys (λ ks. ks ++ (key ∷ [])) (key ∷ []) id kr.shares,
    last-append s.keys key,
  )
]

counted :
    (id : Uuid) (key : Text) (kr : Keyring)
    → key_count (push_share_key id key kr) id ≡ suc (key_count kr id)
unfolding key_count push_share_key
counted id key kr = elim (Option-cases (find_share id kr.shares)) [
  | inl e ↦ ground (arith, find_share-change_keys (λ ks. ks ++ (key ∷ [])) (key ∷ []) id kr.shares)
  | inr (s, e) ↦ ground (
    arith,
    find_share-change_keys (λ ks. ks ++ (key ∷ [])) (key ∷ []) id kr.shares,
    length-append s.keys (key ∷ []),
  )
]

-- The newest key of a share is the one that was pushed last, its keys are one more, and the other
-- shares are as they were.
pub push_share_key_lem :
    (id : Uuid) (key : Text) (kr : Keyring)
    → (current_for (push_share_key id key kr) id ≡ some key)
      × (key_count (push_share_key id key kr) id ≡ suc (key_count kr id))
      × ((j : Uuid) → j ≢ id → share (push_share_key id key kr) j ≡ share kr j)
unfolding current_for push_share_key key_count share
push_share_key_lem id key kr = (
  pushed id key kr,
  counted id key kr,
  λ j n. find_share-change_other (λ ks. ks ++ (key ∷ [])) (key ∷ []) id j kr.shares n,
)

grown :
    (id : Uuid) (ks : List Text) (kr : Keyring) (j : Uuid)
    → key_count kr id ≤ length ks
    → key_count kr j ≤ key_count (set_share_keys id ks kr) j
unfolding key_count set_share_keys
grown id ks kr j h = elim (Bool-cases (j == id)) [
  | inl e ↦ ground (arith, find_share-change_keys (λ _. ks) ks id kr.shares)
  | inr e ↦ ground (arith, find_share-change_other (λ _. ks) ks id j kr.shares)
]

-- Absorbing a key list, however late it comes, leaves no share with fewer keys.
pub absorb_share_key-grows :
    (id : Uuid) (list : Text) (kr kr' : Keyring) (j : Uuid)
    → absorb_share_key id list kr ≡ done kr'
    → key_count kr j ≤ key_count kr' j
unfolding absorb_share_key key_count share set_share_keys ◌>>=◌
absorb_share_key-grows id list kr kr' j h = elim (Result-cases (split_key_list list)) [
  | inl (ks, e) ↦ ground (arith, grown id ks kr j)
  | inr (v, e) ↦ ground arith
]

-- Normalizing twice is normalizing once.
normalize_twice : (kr : Keyring) → normalize (normalize kr) ≡ normalize kr
unfolding normalize
normalize_twice kr = ground arith
