-- ===== src/Sync/Heals.antt =====
-- Healing the keys writes no entry: the log stays as it is.
use sshvault.Prelude.{
  ◌≡◌, refl, ◌∙◌, Bool, false, not, ◌||◌, some, List, [], ◌∷◌, inl, inr, Bool-cases, Option-cases,
  arith, ltb, ◌==◌,
}
use sshvault.Prelude.Order.{Text}
use sshvault.Record.{Uuid, nil_uuid}
use sshvault.Proto.{ShareMembership, WrappedResp}
use sshvault.Vault.Fail.{Result, Result-cases}
use sshvault.Vault.Keyring.{has_share, share_epoch}
use sshvault.Vault.Store.{Vault, Disk}
use sshvault.Vault.Keys.{epoch, absorb_key_list, absorb_vault_key_list}
use sshvault.Sync.{
  Synced, synced, broken, Step, Client, Relay, parse, ◌>>=◌, next_step, lift, pure, rekey, rekeyed,
  unwrap_for, absorb_default, heal_default, share_of, absorb_named, heal_share, heal_each,
  heal_shares,
}

-- Whatever comes of the step, the files are as they were.
abbrev pub KeepsDisk {ℓ} : {A : Type ℓ} → Step A → Type 0
KeepsDisk s = (v : Vault) (d : Disk) → (s v d).2 ≡ d

module _ {ℓ κ} {A : Type ℓ} {B : Type κ} where
  after_step :
      (r : Synced A × Vault × Disk) (f : A → Step B) (d : Disk)
      → r.2 ≡ d
      → ((a : A) → KeepsDisk (f a))
      → (next_step r f).2 ≡ d
  unfolding next_step
  after_step (synced a, v1, d1) f d h k = k a v1 d1 ∙ h
  after_step (broken e, v1, d1) f d h k = h

  KeepsDisk-bind :
      (s : Step A) (f : A → Step B)
      → KeepsDisk s
      → ((a : A) → KeepsDisk (f a))
      → KeepsDisk (s >>= f)
  unfolding ◌>>=◌
  KeepsDisk-bind s f h k v d = after_step (s v d) f d (h v d) k

KeepsDisk-pure {ℓ} : {A : Type ℓ} (a : A) → KeepsDisk (pure a)
unfolding pure
KeepsDisk-pure a v d = refl

KeepsDisk-lift {ℓ} : {A : Type ℓ} (r : Synced A) → KeepsDisk (lift r)
unfolding lift
KeepsDisk-lift r v d = refl

KeepsDisk-rekey : (f : Vault → Result Vault) → KeepsDisk (rekey f)
unfolding rekey
KeepsDisk-rekey f v d = elim (Result-cases (f v)) [
  | inl (v', e) ↦ rw (rekey, rekeyed, e) refl
  | inr (x, e) ↦ rw (rekey, rekeyed, e) refl
]

module _ (client : Client) where
  KeepsDisk-unwrap_for : (b64 : Text) → KeepsDisk (unwrap_for client b64)
  unfolding unwrap_for
  KeepsDisk-unwrap_for b64 v d = ground arith

  KeepsDisk-absorb_default : (b64 : Text) → KeepsDisk (absorb_default client b64)
  unfolding absorb_default
  KeepsDisk-absorb_default b64 =
      KeepsDisk-bind (unwrap_for client b64) _ (KeepsDisk-unwrap_for b64)
        (λ list. KeepsDisk-rekey (absorb_vault_key_list list))

  KeepsDisk-absorb_named : (b64 : Text) (share : Uuid) → KeepsDisk (absorb_named client b64 share)
  unfolding absorb_named
  KeepsDisk-absorb_named b64 share =
      KeepsDisk-bind (unwrap_for client b64) _ (KeepsDisk-unwrap_for b64)
        (λ list. KeepsDisk-rekey (absorb_key_list share list))

  KeepsDisk-heal_default : (resp : WrappedResp) → KeepsDisk (heal_default client resp)
  unfolding heal_default pure
  KeepsDisk-heal_default resp v d = elim (Bool-cases (ltb (epoch v) resp.epoch)) [
    | inl e ↦ elim (Option-cases resp.wrapped_key_b64) [
      | inl w ↦ rw (heal_default, e, w) refl
      | inr (b64, w) ↦ rw (heal_default, e, w) (KeepsDisk-absorb_default b64 v d)
    ]
    | inr e ↦ rw (heal_default, e) refl
  ]

  heal_named :
      (m : ShareMembership) (share : Uuid) (v : Vault) (d : Disk)
      → share_of client m.share_id_b64 ≡ some share
      → (heal_share client m v d).2 ≡ d
  unfolding heal_share pure
  heal_named m share v d e = elim (Bool-cases (share == nil_uuid)) [
    | inl k ↦ rw (heal_share, e, k) refl
    | inr k ↦
        elim (Bool-cases
          (not (has_share v.keyring share) || ltb (share_epoch v.keyring share) m.epoch)) [
            | inl b ↦
                rw (heal_share, e, k, b)
                  (KeepsDisk-bind (absorb_named client m.wrapped_key_b64 share)
                    (λ _. pure (not (has_share v.keyring share)))
                    (KeepsDisk-absorb_named m.wrapped_key_b64 share)
                    (λ _. KeepsDisk-pure (not (has_share v.keyring share))) v d)
            | inr b ↦ rw (heal_share, e, k, b) refl
          ]
  ]

  KeepsDisk-heal_share : (m : ShareMembership) → KeepsDisk (heal_share client m)
  unfolding heal_share pure
  KeepsDisk-heal_share m v d = elim (Option-cases (share_of client m.share_id_b64)) [
    | inl e ↦ rw (heal_share, e) refl
    | inr (share, e) ↦ heal_named m share v d e
  ]

  KeepsDisk-heal_each :
      (gained : Bool) (ms : List ShareMembership) → KeepsDisk (heal_each client gained ms)
  unfolding heal_each
  KeepsDisk-heal_each gained [] = KeepsDisk-pure gained
  KeepsDisk-heal_each gained (m ∷ ms) =
      KeepsDisk-bind (heal_share client m) _ (KeepsDisk-heal_share m)
        (λ new. KeepsDisk-heal_each (gained || new) ms)

  pub KeepsDisk-heal_shares : (relay : Relay) → KeepsDisk (heal_shares client relay)
  unfolding heal_shares
  KeepsDisk-heal_shares relay =
      KeepsDisk-bind (lift (parse relay.wrapped)) _ (KeepsDisk-lift (parse relay.wrapped))
        (λ wrapped.
          KeepsDisk-bind (heal_default client wrapped) _ (KeepsDisk-heal_default wrapped) (λ _.
            KeepsDisk-bind (lift (parse relay.shares)) _ (KeepsDisk-lift (parse relay.shares))
              (λ resp. KeepsDisk-heal_each false resp.shares)))
