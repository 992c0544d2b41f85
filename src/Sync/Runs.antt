-- ===== src/Sync/Runs.antt =====
-- A sequence of steps that succeeds, taken apart.
use sshvault.Prelude.{◌≡◌, refl, ap, arith}
use sshvault.Vault.Store.{Vault, Disk}
use sshvault.Sync.{Synced, synced, broken, Step, Answer, answered, parse, ◌>>=◌, next_step, lift}

-- A sequence that succeeds is two steps that succeed.
pub record Both {ℓ κ} {A : Type ℓ} {B : Type κ} (s : Step A) (f : A → Step B) (v : Vault) (d : Disk)
    (b : B) (v' : Vault) (d' : Disk) : Type (ℓ ⊔ κ) where
  pub value : A
  pub handle : Vault
  pub disk : Disk
  pub first : s v d ≡ (synced value, handle, disk)
  pub second : f value handle disk ≡ (synced b, v', d')

module _ {ℓ κ} {A : Type ℓ} {B : Type κ} (s : Step A) (f : A → Step B) where
  split_run :
      (v : Vault) (d : Disk) (b : B) (v' : Vault) (d' : Disk) (r : Synced A × Vault × Disk)
      → s v d ≡ r
      → next_step r f ≡ (synced b, v', d')
      → Both s f v d b v' d'
  unfolding next_step
  split_run v d b v' d' (synced a, v1, d1) e h = record {
    value = a;
    handle = v1;
    disk = d1;
    first = e;
    second = h;
  }
  split_run v d b v' d' (broken x, v1, d1) e h = absurd (ground arith)

  pub both :
      (v : Vault) (d : Disk) (b : B) (v' : Vault) (d' : Disk)
      → (s >>= f) v d ≡ (synced b, v', d')
      → Both s f v d b v' d'
  unfolding ◌>>=◌
  both v d b v' d' h = split_run v d b v' d' (s v d) refl h

pub lifted {ℓ} :
    {A : Type ℓ} (r : Synced A) (a : A) (v v' : Vault) (d d' : Disk)
    → lift r v d ≡ (synced a, v', d')
    → (r ≡ synced a) × (v ≡ v') × (d ≡ d')
unfolding lift
lifted r a v v' d d' h = (ap (λ x. x.0) h, ap (λ x. x.1) h, ap (λ x. x.2) h)

pub answered_by {ℓ} : {A : Type ℓ} (r : Answer A) (a : A) → parse r ≡ synced a → r ≡ answered a
unfolding parse
answered_by (answered b) a h = cc
answered_by (Answer.refused n) a h = absurd (ground arith)
answered_by Answer.unreachable a h = absurd (ground arith)
