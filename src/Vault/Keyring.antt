-- ===== src/Vault/Keyring.antt =====
-- `Keyring` in src/vault.rs: for each share its keys, oldest epoch first. A share id is the number
-- that its 16 bytes spell.
pub mod Lists
pub mod Growth
pub mod Opening
pub mod Holding
use mathlib.Core.List.{reverse}
use sshvault.Prelude.{
  ℕ, zero, suc, ◌+◌, ◌*◌, ◌%◌, Bool, true, false, ◌&&◌, ◌||◌, not, Option, none, some, List, [],
  ◌∷◌, ◌++◌, map, length, take, drop, leb, ◌==◌, if◌then◌else◌,
}
use sshvault.Prelude.Order.{Text}
use sshvault.Record.{Uuid, nil_uuid, Record}
use sshvault.Vault.Fail.{Result, done, fail, corrupt, ◌>>=◌}

pub record ShareKeys : Type 0 where
  pub id : Uuid
  pub keys : List Text

pub record Keyring : Type 0 where
  pub shares : List ShareKeys
  pub vault_keys : List Text
  pub vault_key : Option Text
  pub x25519_secret : Text
  pub ed25519_secret : Text

unfoldable pub find_share : Uuid → List ShareKeys → Option ShareKeys
find_share id [] = none
find_share id (s ∷ ss) = if s.id == id then some s else find_share id ss

unfoldable pub share : Keyring → Uuid → Option ShareKeys
share kr id = find_share id kr.shares

is_none {ℓ} : {A : Type ℓ} → Option A → Bool
is_none none = true
is_none (some a) = false

is_empty {ℓ} : {A : Type ℓ} → List A → Bool
is_empty [] = true
is_empty (x ∷ xs) = false

-- The legacy keys: the list, or else the single key.
unfoldable pub legacy_keys : List Text → Option Text → List Text
legacy_keys [] none = []
legacy_keys [] (some k) = k ∷ []
legacy_keys (k ∷ ks) key = k ∷ ks

-- `Keyring::normalize`
unfoldable pub normalize : Keyring → Keyring
unfolding share find_share legacy_keys is_none is_empty
normalize kr =
    let legacy = legacy_keys kr.vault_keys kr.vault_key in
    record kr {
      vault_keys = [];
      vault_key = none;
      shares =
          if not (is_empty legacy) && is_none (find_share nil_uuid kr.shares)
          then kr.shares ++ (record { id = nil_uuid; keys = legacy } ∷ [])
          else kr.shares;
    }

unfoldable pub last : List Text → Option Text
last [] = none
last (k ∷ []) = some k
last (k ∷ j ∷ ks) = last (j ∷ ks)

-- The key of the newest epoch.
unfoldable pub current_for : Keyring → Uuid → Option Text
unfolding share find_share last
current_for kr id = elim (find_share id kr.shares) [ none ↦ none | some s ↦ last s.keys ]

-- `(keys.len() - 1) as u32`, which wraps for no key.
unfoldable pub epoch_of_count : ℕ → ℕ
epoch_of_count zero = 4294967295
epoch_of_count (suc n) = n % 4294967296

unfoldable pub share_epoch : Keyring → Uuid → ℕ
unfolding find_share epoch_of_count
share_epoch kr id = elim (find_share id kr.shares) [
  | none ↦ 0
  | some s ↦ epoch_of_count (length s.keys)
]

unfoldable pub join : List Text → Text
join [] = []
join (k ∷ ks) = k ++ join ks

-- `epoch0 || epoch1 || …`, nothing for a share that is not held.
unfoldable pub share_key_list : Keyring → Uuid → Text
unfolding find_share join
share_key_list kr id = elim (find_share id kr.shares) [ none ↦ [] | some s ↦ join s.keys ]

-- `chunks_exact(32)`; the fuel is the length of the list.
unfoldable pub chunks : ℕ → Text → List Text
chunks zero list = []
chunks (suc fuel) [] = []
chunks (suc fuel) (c ∷ list) = take 32 (c ∷ list) ∷ chunks fuel (drop 32 (c ∷ list))

unfoldable pub split_key_list : Text → Result (List Text)
unfolding chunks is_empty
split_key_list list =
    if is_empty list || not (length list % 32 == 0)
    then fail corrupt
    else done (chunks (length list) list)

-- The keys of a share, the first of the id, after `f`; a share that is not there is made of `keys`.
unfoldable pub change_keys :
    (List Text → List Text) → List Text → Uuid → List ShareKeys → List ShareKeys
change_keys f keys id [] = record { id = id; keys = keys } ∷ []
change_keys f keys id (s ∷ ss) =
    if s.id == id then record s { keys = f s.keys } ∷ ss else s ∷ change_keys f keys id ss

unfoldable pub push_share_key : Uuid → Text → Keyring → Keyring
unfolding change_keys
push_share_key id key kr = record kr {
  shares = change_keys (λ ks. ks ++ (key ∷ [])) (key ∷ []) id kr.shares;
}

unfoldable pub set_share_keys : Uuid → List Text → Keyring → Keyring
unfolding change_keys
set_share_keys id keys kr = record kr { shares = change_keys (λ _. keys) keys id kr.shares }

-- `create_share`, the new id and the random key given
unfoldable pub create_share : Uuid → Text → Keyring → Keyring
unfolding push_share_key
create_share id key kr = push_share_key id key kr

-- `rotate_share`, the random key given: the new epoch
unfoldable pub rotate_share : Uuid → Text → Keyring → Result (ℕ × Keyring)
unfolding push_share_key share_epoch
rotate_share id key kr = elim (find_share id kr.shares) [
  | none ↦ fail corrupt
  | some _ ↦ let kr' = push_share_key id key kr in done (share_epoch kr' id, kr')
]

-- Only a longer list replaces the keys that are held.
unfoldable pub absorb_share_key : Uuid → Text → Keyring → Result Keyring
unfolding split_key_list set_share_keys find_share ◌>>=◌
absorb_share_key id list kr = do
  keys ← split_key_list list
  elim (find_share id kr.shares) [
    | none ↦ done (set_share_keys id keys kr)
    | some s ↦
        if leb (length keys) (length s.keys) then done kr else done (set_share_keys id keys kr)
  ]

unfoldable pub has_share : Keyring → Uuid → Bool
unfolding share is_none
has_share kr id = not (is_none (share kr id))

unfoldable pub held_shares : Keyring → List Uuid
held_shares kr = map (λ s. s.id) kr.shares

-- What a snapshot was built with: each share's number of keys.
unfoldable pub held_share_epochs : Keyring → List (Uuid × ℕ)
held_share_epochs kr = map (λ s. (s.id, length s.keys % 4294967296)) kr.shares

-- The entry opened by the first of the keys that opens it: share by share, the newest epoch first.
module _ (decrypt : Text → Text → Text → Option Text) (from_slice : Text → Option Record)
    (entry_id blob : Text) where
  parsed : Option Record → Result (Option Record)
  parsed none = fail corrupt
  parsed (some rec) = done (some rec)

  unfoldable pub open_keys : List Text → Option (Result (Option Record))
  unfolding parsed
  open_keys [] = none
  open_keys (k ∷ ks) = elim (decrypt k blob entry_id) [
    | none ↦ open_keys ks
    | some plain ↦ some (parsed (from_slice plain))
  ]

  unfoldable pub open_shares : List ShareKeys → Result (Option Record)
  unfolding open_keys
  open_shares [] = done none
  open_shares (s ∷ ss) = elim (open_keys (reverse s.keys)) [ none ↦ open_shares ss | some r ↦ r ]

  unfoldable pub open_entry : Keyring → Result (Option Record)
  unfolding open_shares
  open_entry kr = open_shares kr.shares
