-- ===== src/Sync/Rounds.antt =====
-- A round that succeeds: healing, reading, pushing and pulling.
use sshvault.Prelude.{ℕ, ◌≡◌, ap, sym, subst, ◌∙◌, Bool, All, Option, none, some, List, arith, map}
use sshvault.Prelude.Order.{Text}
use sshvault.Record.{Uuid}
use sshvault.Proto.{PushResp, SharesResp}
use sshvault.Vault.Fail.{Result, done, fail}
use sshvault.Vault.Store.{Vault, Disk, Codec}
use sshvault.Vault.Edit.{raw_entries_tagged}
use sshvault.Sync.{
  synced, Step, Client, Relay, answered, parse, ◌>>=◌, lift, query, heal_shares, wire_entries,
  pull_after, push_then_pull, exchange, with_url, sync_once, from_result,
}
use sshvault.Sync.Runs.{both, lifted, answered_by}
use sshvault.Sync.Heals.{KeepsDisk-heal_shares}
use sshvault.Vault.Keyring.Holding.{KeepsShares}
use sshvault.Sync.Holds.{IsHeld, heal_shares-IsHeld}
use sshvault.Sync.Pulls.{start, Exchanged, pull_after-Exchanged}

tagged :
    (r : Result (List (Text × Text × Uuid))) (l : List (Text × Text × Uuid))
    → from_result r ≡ synced l
    → r ≡ done l
unfolding from_result
tagged (done a) l h = cc
tagged (fail e) l h = absurd (ground arith)

has_url :
    (url : Option Text) (step : Step (ℕ × ℕ)) (v v' : Vault) (d d' : Disk) (result : ℕ × ℕ)
    → with_url url step v d ≡ (synced result, v', d')
    → step v d ≡ (synced result, v', d')
unfolding with_url
has_url none step v v' d d' result h = absurd (ground arith)
has_url (some url) step v v' d d' result h = h

module _ {ℓ} {A : Type ℓ} (f : Vault → Disk → Result A) where
  query_result :
      (v v' : Vault) (d d' : Disk) (a : A)
      → query f v d ≡ (synced a, v', d')
      → from_result (f v d) ≡ synced a
  unfolding query
  query_result v v' d d' a h = ap (λ x. x.0) h

  queried : (v v' : Vault) (d d' : Disk) (a : A) → query f v d ≡ (synced a, v', d') → d ≡ d'
  unfolding query
  queried v v' d d' a h = ap (λ x. x.2) h

  asked : (v v' : Vault) (d d' : Disk) (a : A) → query f v d ≡ (synced a, v', d') → v ≡ v'
  unfolding query
  asked v v' d d' a h = ap (λ x. x.1) h

module _ (client : Client) (c : Codec) (relay : Relay) where
  exchanging :
      (v v' : Vault) (d d' : Disk) (result : ℕ × ℕ)
      → sync_once client c relay v d ≡ (synced result, v', d')
      → exchange client c relay v d ≡ (synced result, v', d')
  unfolding sync_once
  exchanging v v' d d' result h =
      has_url v.meta.relay_url (exchange client c relay) v v' d d' result h

  pushing :
      (changed : Bool) (local : List (Text × Text × Uuid)) (v v' : Vault) (d d' : Disk)
      (result : ℕ × ℕ)
      → push_then_pull client c relay changed local v d ≡ (synced result, v', d')
      → (lift (parse (relay.push (record { entries = wire_entries client local })))
            >>= (λ pushed. pull_after client c relay changed (map (λ e. e.0) local) pushed))
          v d
        ≡ (synced result, v', d')
  unfolding push_then_pull
  pushing changed local v v' d d' result h = h

  -- A round that succeeds has healed its keys: it keeps the shares it held, and holds each named
  -- share that the relay told of. It has read the local entries with those keys, pushed them all,
  -- and pulled from the cursor, or from the beginning if healing reports that a share was gained:
  -- the log has grown by just a frame for each entry of the relay's answer whose id was not there,
  -- in their order, as many as it reports, each of the others was there, and the cursor is not below
  -- the head that the relay told.
  pub sync_once-Exchanged :
      (v v' : Vault) (d d' : Disk) (result : ℕ × ℕ)
      → sync_once client c relay v d ≡ (synced result, v', d')
      → (gained : Bool) × (healed : Vault) × (local : List (Text × Text × Uuid))
        × (pushed : PushResp) × (heal_shares client relay v d ≡ (synced gained, healed, d))
        × ((told : SharesResp) × (relay.shares ≡ answered told)
            × All (IsHeld client healed.keyring) told.shares)
        × KeepsShares v.keyring healed.keyring
        × (raw_entries_tagged c healed d ≡ done local)
        × (relay.push (record { entries = wire_entries client local }) ≡ answered pushed)
        × Exchanged client c relay
            (start gained healed)
            (map (λ e. e.0) local)
            pushed
            d
            result
            v'
            d'
  unfolding exchange
  sync_once-Exchanged v v' d d' result h =
      let b1 =
        both (heal_shares client relay)
          (λ changed.
            query (raw_entries_tagged c) >>= (λ local. push_then_pull client c relay changed local))
          v d result v' d' (exchanging v v' d d' result h) in
      let b2 =
        both (query (raw_entries_tagged c)) (λ local. push_then_pull client c relay b1.value local)
          b1.handle b1.disk result v' d' b1.second in
      let have = map (λ e. e.0) b2.value in
      let b3 =
        both (lift (parse (relay.push (record { entries = wire_entries client b2.value }))))
          (λ pushed. pull_after client c relay b1.value have pushed) b2.handle b2.disk result v' d'
          (pushing b1.value b2.value b2.handle v' b2.disk d' result b2.second) in
      let (was, same_v, same_d) =
        lifted (parse (relay.push (record { entries = wire_entries client b2.value }))) b3.value
          b2.handle b3.handle b2.disk b3.disk b3.first in
      let holds = heal_shares-IsHeld client relay b1.value v b1.handle d b1.disk b1.first in
      let kept : b1.disk ≡ d =
        ap (λ x. x.2) (sym b1.first) ∙ KeepsDisk-heal_shares client relay v d in
      let read_disk : b1.disk ≡ b2.disk =
        queried (raw_entries_tagged c) b1.handle b2.handle b1.disk b2.disk b2.value b2.first in
      let same_handle : b1.handle ≡ b3.handle =
        asked (raw_entries_tagged c) b1.handle b2.handle b1.disk b2.disk b2.value b2.first
        ∙ same_v in
      (
        b1.value,
        b1.handle,
        b2.value,
        b3.value,
        b1.first ∙ ap (λ x. (synced b1.value, b1.handle, x)) kept,
        holds.0,
        holds.1,
        ap (λ x. raw_entries_tagged c b1.handle x) (sym kept)
            ∙ tagged (raw_entries_tagged c b1.handle b1.disk) b2.value (
                query_result (raw_entries_tagged c) b1.handle b2.handle b1.disk b2.disk b2.value
                  b2.first),
        answered_by (relay.push (record { entries = wire_entries client b2.value })) b3.value was,
        subst (λ n. Exchanged client c relay n have b3.value d result v' d')
            (ap (start b1.value) (sym same_handle))
            (subst
              (λ x.
                Exchanged client c relay (start b1.value b3.handle) have b3.value x result v' d')
              (sym same_d ∙ sym read_disk ∙ kept)
              (pull_after-Exchanged client c relay b1.value have b3.value result b3.handle v'
                b3.disk d' b3.second)),
      )
