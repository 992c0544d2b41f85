-- ===== src/Sync/Pulls.antt =====
-- What a pull that succeeds leaves in the log: what the relay sent and was not there.
use sshvault.Prelude.{
  ℕ, ◌≤◌, ◌≡◌, ap, sym, subst, ◌∙◌, Bool, true, false, if◌then◌else◌, List, ◌++◌, arith, length,
}
use sshvault.Prelude.Order.{Text}
use sshvault.Proto.{PushResp, PullResp}
use sshvault.Vault.Frames.{RawEntry, log_of}
use sshvault.Vault.Store.{Vault, Disk, Codec, write_meta, set_sync_cursor, reset_sync_cursor}
use sshvault.Sync.{
  Synced, synced, broken, Client, Relay, answered, parse, ◌>>=◌, lift, pure, ask, put,
  apply_entries, rewind, receive, pull_since, pull_after,
}
use sshvault.Sync.Runs.{both, lifted, answered_by}
use sshvault.Sync.Storing.{Stores, apply_entries-Pulled}

-- Where a pull starts: at the cursor of the handle, or at the beginning once a share was gained.
abbrev pub start : Bool → Vault → ℕ
start gained v = if gained then 0 else v.meta.sync_cursor

rewound :
    (b : Bool) (v v' : Vault) (d d' : Disk)
    → rewind b v d ≡ (synced tt, v', d')
    → (d'.log ≡ d.log) × (v'.meta.sync_cursor ≡ start b v)
unfolding rewind put reset_sync_cursor pure write_meta
rewound true v v' d d' h = (ap (λ x. x.2.log) (sym h), ap (λ x. x.1.meta.sync_cursor) (sym h))
rewound false v v' d d' h = (ap (λ x. x.2.log) (sym h), ap (λ x. x.1.meta.sync_cursor) (sym h))

-- The cursor is written, and is not below the head.
advanced :
    (head : ℕ) (v v' : Vault) (d d' : Disk)
    → put (set_sync_cursor head) v d ≡ (synced tt, v', d')
    → (d'.log ≡ d.log) × (head ≤ v'.meta.sync_cursor)
unfolding put set_sync_cursor write_meta
advanced head v v' d d' h = (
  ap (λ x. x.2.log) (sym h),
  subst (λ n. head ≤ n) (ap (λ x. x.1.meta.sync_cursor) h) (omega arith),
)

abbrev value_of : Synced ℕ → ℕ
value_of (synced n) = n
value_of (broken e) = 0

abbrev counts_of : Synced (ℕ × ℕ) → ℕ × ℕ
counts_of (synced n) = n
counts_of (broken e) = (0, 0)

-- What a pull that succeeds did.
record Received (client : Client) (have : List Text) (d : Disk) (resp : PullResp) (stored : ℕ)
    (result : ℕ × ℕ) (v' : Vault) (d' : Disk) : Type 0 where
  frames : List RawEntry
  stores : Stores client have resp.entries frames
  counts : result ≡ (stored, length frames)
  log : d'.log ≡ d.log ++ log_of frames
  cursor : resp.head ≤ v'.meta.sync_cursor

module _ (client : Client) (c : Codec) (have : List Text) where
  receive-Received :
      (stored : ℕ) (resp : PullResp) (result : ℕ × ℕ) (v v' : Vault) (d d' : Disk)
      → receive client c have stored resp v d ≡ (synced result, v', d')
      → Received client have d resp stored result v' d'
  unfolding receive pure
  receive-Received stored resp result v v' d d' h =
      let b1 = both (apply_entries client c have 0 resp.entries) _ v d result v' d' h in
      let p =
        apply_entries-Pulled client c have resp.entries 0 b1.value v b1.handle d b1.disk b1.first in
      let b2 =
        both (put (set_sync_cursor resp.head)) (λ _. pure (stored, b1.value)) b1.handle b1.disk
          result v' d' b1.second in
      let (same, high) = advanced resp.head b1.handle b2.handle b1.disk b2.disk b2.first in
      record {
        frames = p.frames;
        stores = p.stores;
        counts =
            sym (ap (λ x. counts_of x.0) b2.second) ∙ ap (λ n. (stored, n)) (p.count ∙ omega arith);
        log = ap (λ x. x.2.log) (sym b2.second) ∙ same ∙ p.log;
        cursor = subst (λ n. resp.head ≤ n) (ap (λ x. x.1.meta.sync_cursor) b2.second) high;
      }

module _ (client : Client) (c : Codec) (relay : Relay) where
  -- What a round did that succeeded, after its push, with a pull that started at `since`.
  pub record Exchanged (since : ℕ) (have : List Text) (pushed : PushResp) (d : Disk)
      (result : ℕ × ℕ) (v' : Vault) (d' : Disk) : Type 0 where
    pub resp : PullResp
    pub frames : List RawEntry
    pub pull : relay.pull since ≡ answered resp
    pub stores : Stores client have resp.entries frames
    pub counts : result ≡ (pushed.stored, length frames)
    pub log : d'.log ≡ d.log ++ log_of frames
    pub cursor : resp.head ≤ v'.meta.sync_cursor

  pub pull_after-Exchanged :
      (changed : Bool) (have : List Text) (pushed : PushResp) (result : ℕ × ℕ) (v v' : Vault)
      (d d' : Disk)
      → pull_after client c relay changed have pushed v d ≡ (synced result, v', d')
      → Exchanged (start changed v) have pushed d result v' d'
  unfolding pull_after pull_since ask
  pull_after-Exchanged changed have pushed result v v' d d' h =
      let b1 =
        both (rewind changed)
          (λ _.
            (ask (λ v. v.meta.sync_cursor))
            >>= (λ since. pull_since client c relay have pushed.stored since))
          v d result v' d' h in
      let b2 =
        both (ask (λ v. v.meta.sync_cursor))
          (λ since. pull_since client c relay have pushed.stored since) b1.handle b1.disk result v'
          d' b1.second in
      let b3 =
        both (lift (parse (relay.pull b2.value))) (λ resp. receive client c have pushed.stored resp)
          b2.handle b2.disk result v' d' b2.second in
      let r =
        receive-Received client c have pushed.stored b3.value result b3.handle v' b3.disk d'
          b3.second in
      let (was, same_v, same_d) =
        lifted (parse (relay.pull b2.value)) b3.value b2.handle b3.handle b2.disk b3.disk
          b3.first in
      let (same_log, cursor) = rewound changed v b1.handle d b1.disk b1.first in
      let from : b2.value ≡ start changed v = sym (ap (λ x. value_of x.0) b2.first) ∙ cursor in
      record {
        resp = b3.value;
        frames = r.frames;
        pull =
            subst (λ n. relay.pull n ≡ answered b3.value) from
              (answered_by (relay.pull b2.value) b3.value was);
        stores = r.stores;
        counts = r.counts;
        log =
            r.log
            ∙ ap (λ (x : Disk). x.log ++ log_of r.frames)
                (sym same_d ∙ sym (ap (λ x. x.2) b2.first))
            ∙ ap (λ l. l ++ log_of r.frames) same_log;
        cursor = r.cursor;
      }
