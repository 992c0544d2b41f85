-- ===== src/Vault/Keyring/Opening.antt =====
-- Opening an entry with the keys that are held.
use mathlib.Core.List.{reverse_aux}
use sshvault.Prelude.{
  ◌≡◌, refl, Option, none, List, [], ◌∷◌, ◌++◌, Bool-cases, inl, inr, ◌==◌, arith,
}
use sshvault.Prelude.Order.{Text}
use sshvault.Record.{Uuid, Record}
use sshvault.Vault.Keyring.{
  Keyring, ShareKeys, change_keys, push_share_key, open_keys, open_shares, open_entry,
}

reverse_aux-append :
    (ks acc : List Text) (k : Text) → reverse_aux (ks ++ (k ∷ [])) acc ≡ k ∷ reverse_aux ks acc
reverse_aux-append [] acc k = refl
reverse_aux-append (j ∷ ks) acc k = reverse_aux-append ks (j ∷ acc) k

module _ (decrypt : Text → Text → Text → Option Text) (from_slice : Text → Option Record)
    (entry_id blob : Text) where
  open_shares-change :
      (key : Text) (id : Uuid) (ss : List ShareKeys)
      → decrypt key blob entry_id ≡ none
      → open_shares decrypt from_slice entry_id blob
          (change_keys (λ ks. ks ++ (key ∷ [])) (key ∷ []) id ss)
        ≡ open_shares decrypt from_slice entry_id blob ss
  unfolding open_shares change_keys open_keys
  open_shares-change key id [] h = rw h refl
  open_shares-change key id (s ∷ ss) h = elim (Bool-cases (s.id == id)) [
    | inl e ↦ ground (arith, reverse_aux-append s.keys [] key)
    | inr e ↦ ground (arith, open_shares-change key id ss h)
  ]

  -- A new key takes nothing from what could be read: an entry that it does not open is opened, or
  -- not, as before.
  pub open_entry-push_share_key :
      (id : Uuid) (key : Text) (kr : Keyring)
      → decrypt key blob entry_id ≡ none
      → open_entry decrypt from_slice entry_id blob (push_share_key id key kr)
        ≡ open_entry decrypt from_slice entry_id blob kr
  unfolding open_entry push_share_key
  open_entry-push_share_key id key kr h = open_shares-change key id kr.shares h
