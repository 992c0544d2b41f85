-- ===== src/Sync/Holds.antt =====
-- What healing leaves in the keyring: each named share that the relay tells of.
use sshvault.Prelude.{
  ◌≡◌, ◌≢◌, refl, ap, sym, ◌∙◌, subst, Bool, true, false, not, ◌||◌, some, List, [], ◌∷◌, inl, inr,
  Bool-cases, Option-cases, arith, ltb, ◌==◌, All,
}
use sshvault.Prelude.Order.{Text}
use sshvault.Record.{Uuid, nil_uuid}
use sshvault.Proto.{ShareMembership, SharesResp, WrappedResp}
use sshvault.Vault.Fail.{Result, done, fail, Result-cases}
use sshvault.Vault.Keyring.{Keyring, has_share, share, share_epoch, absorb_share_key}
use sshvault.Vault.Keyring.Holding.{KeepsShares, absorb_share_key-holds}
use sshvault.Vault.Store.{Vault, Disk}
use sshvault.Vault.Keys.{epoch, absorb_key_list, absorb_vault_key_list}
use sshvault.Sync.{
  synced, Client, Relay, answered, parse, ◌>>=◌, lift, pure, rekey, rekeyed, unwrap_for,
  absorb_default, heal_default, share_of, absorb_named, heal_share, heal_each, heal_shares,
}
use sshvault.Sync.Runs.{both, lifted, answered_by}

rekeyed_lem :
    (r : Result Vault) (v v' : Vault) (d d' : Disk)
    → rekeyed r v d ≡ (synced tt, v', d')
    → r ≡ done v'
unfolding rekeyed
rekeyed_lem (done w) v v' d d' h = ap (λ x. done x.1) h
rekeyed_lem (fail e) v v' d d' h = absurd (ground arith)

absorb_key_list_lem :
    (id : Uuid) (list : Text) (v v' : Vault)
    → absorb_key_list id list v ≡ done v'
    → absorb_share_key id list v.keyring ≡ done v'.keyring
unfolding absorb_key_list
absorb_key_list_lem id list v v' h = elim (Result-cases (absorb_share_key id list v.keyring)) [
  | inl (kr, e) ↦
      let found : absorb_key_list id list v ≡ done (record v { keyring = kr }) =
        rw (absorb_key_list, e) refl in
      e ∙ ap done (keyring_of (sym found ∙ h))
  | inr (x, e) ↦ absurd (ground arith)
]
  where
    keyring_of : {a b : Vault} → done a ≡ done b → a.keyring ≡ b.keyring
    keyring_of h = cc

module _ (client : Client) where
  unwrap_for_keeps :
      (b64 list : Text) (v v' : Vault) (d d' : Disk)
      → unwrap_for client b64 v d ≡ (synced list, v', d')
      → v ≡ v'
  unfolding unwrap_for
  unwrap_for_keeps b64 list v v' d d' h =
      let same : (unwrap_for client b64 v d).1 ≡ v = ground arith in sym same ∙ ap (λ x. x.1) h

  absorb_named-holds :
      (b64 : Text) (share : Uuid) (v v' : Vault) (d d' : Disk)
      → absorb_named client b64 share v d ≡ (synced tt, v', d')
      → (has_share v'.keyring share ≡ true) × KeepsShares v.keyring v'.keyring
  unfolding absorb_named rekey
  absorb_named-holds b64 share v v' d d' h =
      let b =
        both (unwrap_for client b64) (λ list. rekey (absorb_key_list share list)) v d tt v' d' h in
      let same = unwrap_for_keeps b64 b.value v b.handle d b.disk b.first in
      let grown =
        absorb_key_list_lem share b.value b.handle v'
          (rekeyed_lem (absorb_key_list share b.value b.handle) b.handle v' b.disk d' b.second) in
      let holds =
        λ (j : Uuid). absorb_share_key-holds share b.value b.handle.keyring v'.keyring j grown in
      (
        (holds share).0,
        subst (λ (x : Vault). KeepsShares x.keyring v'.keyring) (sym same) (λ j. (holds j).1),
      )

  absorb_default-keeps :
      (b64 : Text) (v v' : Vault) (d d' : Disk)
      → absorb_default client b64 v d ≡ (synced tt, v', d')
      → KeepsShares v.keyring v'.keyring
  unfolding absorb_default absorb_named absorb_vault_key_list rekey
  absorb_default-keeps b64 v v' d d' h = (absorb_named-holds b64 nil_uuid v v' d d' h).1

  stays : (v v' : Vault) → v ≡ v' → KeepsShares v.keyring v'.keyring
  stays v v' e = subst (λ (x : Vault). KeepsShares v.keyring x.keyring) e (λ j h. h)

  heal_default-keeps :
      (resp : WrappedResp) (v v' : Vault) (d d' : Disk)
      → heal_default client resp v d ≡ (synced tt, v', d')
      → KeepsShares v.keyring v'.keyring
  unfolding heal_default pure
  heal_default-keeps resp v v' d d' h = elim (Bool-cases (ltb (epoch v) resp.epoch)) [
    | inr e ↦
        let ran : heal_default client resp v d ≡ pure tt v d = rw (heal_default, e) refl in
        stays v v' (ap (λ x. x.1) (sym ran ∙ h))
    | inl e ↦ elim (Option-cases resp.wrapped_key_b64) [
      | inl w ↦
          let ran : heal_default client resp v d ≡ pure tt v d = rw (heal_default, e, w) refl in
          stays v v' (ap (λ x. x.1) (sym ran ∙ h))
      | inr (b64, w) ↦
          let ran : heal_default client resp v d ≡ absorb_default client b64 v d =
            rw (heal_default, e, w) refl in
          absorb_default-keeps b64 v v' d d' (sym ran ∙ h)
    ]
  ]

  -- The share that a membership names is held.
  abbrev pub IsHeld : Keyring → ShareMembership → Type 0
  IsHeld kr m =
      (j : Uuid) → share_of client m.share_id_b64 ≡ some j → j ≢ nil_uuid → has_share kr j ≡ true

  some_injective : {a b : Uuid} → some a ≡ some b → a ≡ b
  some_injective h = cc

  -- A membership of a share that is named, and not the default one.
  named-IsHeld :
      (m : ShareMembership) (share : Uuid) (new : Bool) (v v' : Vault) (d d' : Disk)
      → share_of client m.share_id_b64 ≡ some share
      → (share == nil_uuid) ≡ false
      → heal_share client m v d ≡ (synced new, v', d')
      → (has_share v'.keyring share ≡ true) × KeepsShares v.keyring v'.keyring
  unfolding heal_share pure
  named-IsHeld m share new v v' d d' e k h =
      elim (Bool-cases
        (not (has_share v.keyring share) || ltb (share_epoch v.keyring share) m.epoch)) [
          | inl b ↦
              let had = has_share v.keyring share in
              let ran : heal_share client m v d
                  ≡ (absorb_named client m.wrapped_key_b64 share >>= (λ _. pure (not had))) v d =
                rw (heal_share, e, k, b) refl in
              let two =
                both (absorb_named client m.wrapped_key_b64 share) (λ _. pure (not had)) v d new v'
                  d' (sym ran ∙ h) in
              let held =
                absorb_named-holds m.wrapped_key_b64 share v two.handle d two.disk two.first in
              subst
                (λ (x : Vault).
                  (has_share x.keyring share ≡ true) × KeepsShares v.keyring x.keyring)
                (ap (λ x. x.1) two.second) held
          | inr b ↦
              let ran : heal_share client m v d ≡ pure false v d = rw (heal_share, e, k, b) refl in
              let same : v ≡ v' = ap (λ x. x.1) (sym ran ∙ h) in
              let had : has_share v.keyring share ≡ true = ground arith in
              subst
                (λ (x : Vault).
                  (has_share x.keyring share ≡ true) × KeepsShares v.keyring x.keyring)
                same (had, λ j k. k)
        ]

  heal_share-IsHeld :
      (m : ShareMembership) (new : Bool) (v v' : Vault) (d d' : Disk)
      → heal_share client m v d ≡ (synced new, v', d')
      → IsHeld v'.keyring m × KeepsShares v.keyring v'.keyring
  unfolding heal_share pure
  heal_share-IsHeld m new v v' d d' h = elim (Option-cases (share_of client m.share_id_b64)) [
    | inl e ↦
        let ran : heal_share client m v d ≡ pure false v d = rw (heal_share, e) refl in
        (λ j f n. absurd (ground arith), stays v v' (ap (λ x. x.1) (sym ran ∙ h)))
    | inr (id, e) ↦ elim (Bool-cases (id == nil_uuid)) [
      | inl k ↦
          let ran : heal_share client m v d ≡ pure false v d = rw (heal_share, e, k) refl in
          let is_nil : id ≡ nil_uuid = ground arith in
          (
            λ j f n. absurd (n (some_injective (sym f ∙ e) ∙ is_nil)),
            stays v v' (ap (λ x. x.1) (sym ran ∙ h)),
          )
      | inr k ↦
          let (held, kept) = named-IsHeld m id new v v' d d' e k h in
          (
            λ j f n. subst (λ i. has_share v'.keyring i ≡ true) (some_injective (sym e ∙ f)) held,
            kept,
          )
    ]
  ]

  heal_each-IsHeld :
      (gained end : Bool) (ms : List ShareMembership) (v v' : Vault) (d d' : Disk)
      → heal_each client gained ms v d ≡ (synced end, v', d')
      → All (IsHeld v'.keyring) ms × KeepsShares v.keyring v'.keyring
  unfolding heal_each pure
  heal_each-IsHeld gained end [] v v' d d' h = (tt, stays v v' (ap (λ x. x.1) h))
  heal_each-IsHeld gained end (m ∷ ms) v v' d d' h =
      let b =
        both (heal_share client m) (λ new. heal_each client (gained || new) ms) v d end v' d' h in
      let (held, kept) = heal_share-IsHeld m b.value v b.handle d b.disk b.first in
      let (rest, later) =
        heal_each-IsHeld (gained || b.value) end ms b.handle v' b.disk d' b.second in
      ((λ j f n. later j (held j f n), rest), λ j k. later j (kept j k))

  -- A healing that succeeds leaves each share that was held, and each that the relay tells of.
  pub heal_shares-IsHeld :
      (relay : Relay) (gained : Bool) (v v' : Vault) (d d' : Disk)
      → heal_shares client relay v d ≡ (synced gained, v', d')
      → ((resp : SharesResp) × (relay.shares ≡ answered resp) × All (IsHeld v'.keyring) resp.shares)
        × KeepsShares v.keyring v'.keyring
  unfolding heal_shares
  heal_shares-IsHeld relay gained v v' d d' h =
      let rest = λ (wrapped : WrappedResp). heal_default client wrapped >>= (λ _.
        lift (parse relay.shares)
        >>= (λ (resp : SharesResp). heal_each client false resp.shares)) in
      let b1 = both (lift (parse relay.wrapped)) rest v d gained v' d' h in
      let (_, same_v, _) = lifted (parse relay.wrapped) b1.value v b1.handle d b1.disk b1.first in
      let b2 =
        both (heal_default client b1.value)
          (λ _.
            lift (parse relay.shares)
            >>= (λ (resp : SharesResp). heal_each client false resp.shares))
          b1.handle b1.disk gained v' d' b1.second in
      let kept = heal_default-keeps b1.value b1.handle b2.handle b1.disk b2.disk b2.first in
      let b3 =
        both (lift (parse relay.shares)) (λ (resp : SharesResp). heal_each client false resp.shares)
          b2.handle b2.disk gained v' d' b2.second in
      let (was, same, _) =
        lifted (parse relay.shares) b3.value b2.handle b3.handle b2.disk b3.disk b3.first in
      let (held, later) =
        heal_each-IsHeld false gained b3.value.shares b3.handle v' b3.disk d' b3.second in
      (
        (b3.value, answered_by relay.shares b3.value was, held),
        λ j k. later j (stays b2.handle b3.handle same j (kept j (stays v b1.handle same_v j k))),
      )
