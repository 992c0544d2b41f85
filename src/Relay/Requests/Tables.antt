-- ===== src/Relay/Requests/Tables.antt =====
-- A preorder on one table: only the statements on that table have to move it.
use sshvault.Prelude.{ℕ, Bool, List}
use sshvault.Prelude.Order.{Text}
use sshvault.Relay.Db.{Db, VaultRow, DeviceRow, SeenRow, EntryRow}
use sshvault.Relay.Auth.{record_sig}
use sshvault.Relay.Moves.{IsPreorder, Moves-exec}
use sshvault.Relay.Lifecycle
use sshvault.Relay.Shares
use sshvault.Relay.Log
use sshvault.Relay.Requests.Induction.{Statements}

-- A preorder on the rows of a table.
pub record IsOrder {T : Type 0} (Q : T → T → Type 0) : Type 0 where
  pub refl : (a : T) → Q a a
  pub trans : (a b c : T) → Q a b → Q b c → Q a c

pub IsOrder-preorder :
    {T : Type 0} {Q : T → T → Type 0} (t : Db → T) → IsOrder Q → IsPreorder (λ a b. Q (t a) (t b))
IsOrder-preorder t q = record {
  refl = λ a. q.refl (t a);
  trans = λ a b c. q.trans (t a) (t b) (t c);
}

module _ (now : ℕ) (Q : List DeviceRow → List DeviceRow → Type 0) (q : IsOrder Q) where
  abbrev DevicesOrder : Db → Db → Type 0
  DevicesOrder a b = Q a.devices b.devices

  pub devices-Statements :
      ((v key x n : Text) (a : Bool) (db : Db)
        → DevicesOrder db (Lifecycle.enroll_device v key x n a db).1)
      → ((v t w : Text) (db : Db) → DevicesOrder db (Lifecycle.approve_device v t w db).1)
      → ((v t : Text) (db : Db) → DevicesOrder db (Lifecycle.revoke_device v t db).1)
      → ((v t w : Text) (db : Db) → DevicesOrder db (Lifecycle.rewrap_device v t w db).1)
      → Statements now DevicesOrder
  unfolding record_sig Lifecycle.insert_vault Lifecycle.bump_vault Shares.raise_epoch
      Shares.admit_member Shares.bump_share Shares.insert_share Shares.drop_member
      Shares.rewrap_member Log.insert_entry Log.notify Log.subscribe
  devices-Statements h0 h1 h2 h3 = record {
    order = IsOrder-preorder (λ db. db.devices) q;
    record_sig = λ s. Moves-exec _ (λ db. q.refl db.devices);
    insert_vault = λ v r. Moves-exec _ (λ db. q.refl db.devices);
    enroll_device = λ v key x n a. Moves-exec _ (h0 v key x n a);
    approve_device = λ v t w. Moves-exec _ (h1 v t w);
    revoke_device = λ v t. Moves-exec _ (h2 v t);
    bump_vault = λ v e. Moves-exec _ (λ db. q.refl db.devices);
    rewrap_device = λ v t w. Moves-exec _ (h3 v t w);
    raise_epoch = λ v s e. Moves-exec _ (λ db. q.refl db.devices);
    admit_member = λ v s t w. Moves-exec _ (λ db. q.refl db.devices);
    bump_share = λ v s e. Moves-exec _ (λ db. q.refl db.devices);
    insert_share = λ v s e. Moves-exec _ (λ db. q.refl db.devices);
    drop_member = λ v s t. Moves-exec _ (λ db. q.refl db.devices);
    rewrap_member = λ v s t w. Moves-exec _ (λ db. q.refl db.devices);
    insert_entry = λ v i b s. Moves-exec _ (λ db. q.refl db.devices);
    notify = λ v h. Moves-exec _ (λ db. q.refl db.devices);
    subscribe = λ v db. q.refl db.devices;
  }

module _ (now : ℕ) (Q : List VaultRow → List VaultRow → Type 0) (q : IsOrder Q) where
  abbrev VaultsOrder : Db → Db → Type 0
  VaultsOrder a b = Q a.vaults b.vaults

  pub vaults-Statements :
      ((v r : Text) (db : Db) → VaultsOrder db (Lifecycle.insert_vault v r db).1)
      → ((v : Text) (e : ℕ) (db : Db) → VaultsOrder db (Lifecycle.bump_vault v e db).1)
      → Statements now VaultsOrder
  unfolding record_sig Lifecycle.enroll_device Lifecycle.approve_device Lifecycle.revoke_device
      Lifecycle.rewrap_device Shares.raise_epoch Shares.admit_member Shares.bump_share
      Shares.insert_share Shares.drop_member Shares.rewrap_member Log.insert_entry Log.notify
      Log.subscribe
  vaults-Statements h0 h1 = record {
    order = IsOrder-preorder (λ db. db.vaults) q;
    record_sig = λ s. Moves-exec _ (λ db. q.refl db.vaults);
    insert_vault = λ v r. Moves-exec _ (h0 v r);
    enroll_device = λ v key x n a. Moves-exec _ (λ db. q.refl db.vaults);
    approve_device = λ v t w. Moves-exec _ (λ db. q.refl db.vaults);
    revoke_device = λ v t. Moves-exec _ (λ db. q.refl db.vaults);
    bump_vault = λ v e. Moves-exec _ (h1 v e);
    rewrap_device = λ v t w. Moves-exec _ (λ db. q.refl db.vaults);
    raise_epoch = λ v s e. Moves-exec _ (λ db. q.refl db.vaults);
    admit_member = λ v s t w. Moves-exec _ (λ db. q.refl db.vaults);
    bump_share = λ v s e. Moves-exec _ (λ db. q.refl db.vaults);
    insert_share = λ v s e. Moves-exec _ (λ db. q.refl db.vaults);
    drop_member = λ v s t. Moves-exec _ (λ db. q.refl db.vaults);
    rewrap_member = λ v s t w. Moves-exec _ (λ db. q.refl db.vaults);
    insert_entry = λ v i b s. Moves-exec _ (λ db. q.refl db.vaults);
    notify = λ v h. Moves-exec _ (λ db. q.refl db.vaults);
    subscribe = λ v db. q.refl db.vaults;
  }

module _ (now : ℕ) (Q : List SeenRow → List SeenRow → Type 0) (q : IsOrder Q) where
  abbrev SeenOrder : Db → Db → Type 0
  SeenOrder a b = Q a.seen_sigs b.seen_sigs

  pub seen-Statements :
      ((sig : Text) (db : Db) → SeenOrder db (record_sig now sig db).1) → Statements now SeenOrder
  unfolding Lifecycle.insert_vault Lifecycle.enroll_device Lifecycle.approve_device
      Lifecycle.revoke_device Lifecycle.bump_vault Lifecycle.rewrap_device Shares.raise_epoch
      Shares.admit_member Shares.bump_share Shares.insert_share Shares.drop_member
      Shares.rewrap_member Log.insert_entry Log.notify Log.subscribe
  seen-Statements h0 = record {
    order = IsOrder-preorder (λ db. db.seen_sigs) q;
    record_sig = λ s. Moves-exec _ (h0 s);
    insert_vault = λ v r. Moves-exec _ (λ db. q.refl db.seen_sigs);
    enroll_device = λ v key x n a. Moves-exec _ (λ db. q.refl db.seen_sigs);
    approve_device = λ v t w. Moves-exec _ (λ db. q.refl db.seen_sigs);
    revoke_device = λ v t. Moves-exec _ (λ db. q.refl db.seen_sigs);
    bump_vault = λ v e. Moves-exec _ (λ db. q.refl db.seen_sigs);
    rewrap_device = λ v t w. Moves-exec _ (λ db. q.refl db.seen_sigs);
    raise_epoch = λ v s e. Moves-exec _ (λ db. q.refl db.seen_sigs);
    admit_member = λ v s t w. Moves-exec _ (λ db. q.refl db.seen_sigs);
    bump_share = λ v s e. Moves-exec _ (λ db. q.refl db.seen_sigs);
    insert_share = λ v s e. Moves-exec _ (λ db. q.refl db.seen_sigs);
    drop_member = λ v s t. Moves-exec _ (λ db. q.refl db.seen_sigs);
    rewrap_member = λ v s t w. Moves-exec _ (λ db. q.refl db.seen_sigs);
    insert_entry = λ v i b s. Moves-exec _ (λ db. q.refl db.seen_sigs);
    notify = λ v h. Moves-exec _ (λ db. q.refl db.seen_sigs);
    subscribe = λ v db. q.refl db.seen_sigs;
  }

module _ (now : ℕ) (Q : List EntryRow × ℕ → List EntryRow × ℕ → Type 0) (q : IsOrder Q) where
  abbrev LogOrder : Db → Db → Type 0
  LogOrder a b = Q (a.entries, a.last_seq) (b.entries, b.last_seq)

  pub log-Statements :
      ((v i b s : Text) (db : Db) → LogOrder db (Log.insert_entry v i b s db).1)
      → Statements now LogOrder
  unfolding record_sig Lifecycle.insert_vault Lifecycle.enroll_device Lifecycle.approve_device
      Lifecycle.revoke_device Lifecycle.bump_vault Lifecycle.rewrap_device Shares.raise_epoch
      Shares.admit_member Shares.bump_share Shares.insert_share Shares.drop_member
      Shares.rewrap_member Log.notify Log.subscribe
  log-Statements h0 = record {
    order = IsOrder-preorder (λ db. (db.entries, db.last_seq)) q;
    record_sig = λ s. Moves-exec _ (λ db. q.refl (db.entries, db.last_seq));
    insert_vault = λ v r. Moves-exec _ (λ db. q.refl (db.entries, db.last_seq));
    enroll_device = λ v key x n a. Moves-exec _ (λ db. q.refl (db.entries, db.last_seq));
    approve_device = λ v t w. Moves-exec _ (λ db. q.refl (db.entries, db.last_seq));
    revoke_device = λ v t. Moves-exec _ (λ db. q.refl (db.entries, db.last_seq));
    bump_vault = λ v e. Moves-exec _ (λ db. q.refl (db.entries, db.last_seq));
    rewrap_device = λ v t w. Moves-exec _ (λ db. q.refl (db.entries, db.last_seq));
    raise_epoch = λ v s e. Moves-exec _ (λ db. q.refl (db.entries, db.last_seq));
    admit_member = λ v s t w. Moves-exec _ (λ db. q.refl (db.entries, db.last_seq));
    bump_share = λ v s e. Moves-exec _ (λ db. q.refl (db.entries, db.last_seq));
    insert_share = λ v s e. Moves-exec _ (λ db. q.refl (db.entries, db.last_seq));
    drop_member = λ v s t. Moves-exec _ (λ db. q.refl (db.entries, db.last_seq));
    rewrap_member = λ v s t w. Moves-exec _ (λ db. q.refl (db.entries, db.last_seq));
    insert_entry = λ v i b s. Moves-exec _ (h0 v i b s);
    notify = λ v h. Moves-exec _ (λ db. q.refl (db.entries, db.last_seq));
    subscribe = λ v db. q.refl (db.entries, db.last_seq);
  }
