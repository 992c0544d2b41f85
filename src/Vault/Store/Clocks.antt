-- ===== src/Vault/Store/Clocks.antt =====
-- The processes that share one vault folder: what each does to the clock, in any order.
use sshvault.Prelude.{
  ℕ, suc, ◌<◌, ◌≤◌, ◌≡◌, refl, none, some, List, [], ◌∷◌, ◌++◌, arith, max, inl, inr, Bool-cases,
  ltb, true,
}
use sshvault.Prelude.Order.{Text}
use sshvault.Record.{Clock, Record}
use sshvault.Vault.Fail.{Result, done, fail, Result-cases}
use sshvault.Vault.Frames.{RawEntry}
use sshvault.Vault.Keyring.{open_entry}
use sshvault.Vault.Store.{
  Vault, Disk, Meta, Codec, next_clock, set_relay_url, set_sync_cursor, reset_sync_cursor,
  apply_remote_entry, absorb_disk_meta, write_meta,
}

-- What a process does under the vault's lock.
pub data Event : Type 0 where
  tick : Event
  relay_url : Text → Event
  advance_cursor : ℕ → Event
  rewind_cursor : Event
  receive : RawEntry → Event

-- The disk after applying an entry; nothing is written if it fails.
after : Result (Vault × Disk) → Disk → Disk
after (done (v, d')) d = d'
after (fail e) d = d

module _ (c : Codec) where
  -- The clocks that an event hands out, and the disk after it.
  unfoldable pub step : Event → Vault → Disk → List Clock × Disk
  unfolding next_clock set_relay_url set_sync_cursor reset_sync_cursor apply_remote_entry after
  step tick v d = let (clock, v', d') = next_clock v d in (clock ∷ [], d')
  step (relay_url url) v d = ([], (set_relay_url url v d).1)
  step (advance_cursor n) v d = ([], (set_sync_cursor n v d).1)
  step rewind_cursor v d = ([], (reset_sync_cursor v d).1)
  step (receive e) v d = ([], after (apply_remote_entry c e v d) d)

  -- Each event with the handle, as stale as it may be, of the process that does it: the clocks in
  -- the order in which they are handed out.
  unfoldable pub clocks : List (Vault × Event) → Disk → List Clock
  unfolding step
  clocks [] d = []
  clocks ((v, e) ∷ es) d = let (now, d') = step e v d in now ++ clocks es d'

  -- The counts stay away from 2^64: when `n` events came before, no count is above `n`.
  abbrev pub Fits : ℕ → Vault × Event → Type 0
  Fits n (v, receive (id, blob)) =
      (v.meta.lamport ≤ n)
      × ((r : Record)
          → open_entry c.decrypt c.from_slice id blob v.keyring ≡ done (some r)
          → r.clock.lamport ≤ n)
  Fits n (v, e) = v.meta.lamport ≤ n

  abbrev pub Room : ℕ → List (Vault × Event) → Type 0
  Room n [] = Unit
  Room n (e ∷ es) = (suc n < 18446744073709551616) × Fits n e × Room (suc n) es

-- Each clock counts more than `n` and than all before it.
abbrev pub Increasing : ℕ → List Clock → Type 0
Increasing n [] = Unit
Increasing n (k ∷ ks) = (n < k.lamport) × Increasing k.lamport ks

-- An event leaves a metadata file whose count is no lower.
record Moved (m : Meta) (n : ℕ) (d : Disk) : Type 0 where
  meta : Meta
  stands : d.meta ≡ some meta
  higher : m.lamport ≤ meta.lamport
  bounded : meta.lamport ≤ n

absorbed :
    (v : Vault) (d : Disk) (m : Meta)
    → d.meta ≡ some m
    → (absorb_disk_meta v d).meta.lamport ≡ max v.meta.lamport m.lamport
unfolding absorb_disk_meta
absorbed v d m e = rw e refl

absorbed_higher :
    (v : Vault) (d : Disk) (m : Meta)
    → d.meta ≡ some m
    → m.lamport ≤ (absorb_disk_meta v d).meta.lamport
absorbed_higher v d m e = omega (arith, absorbed v d m e)

absorbed_bounded :
    (v : Vault) (d : Disk) (m : Meta) (n : ℕ)
    → d.meta ≡ some m
    → m.lamport ≤ n
    → v.meta.lamport ≤ n
    → (absorb_disk_meta v d).meta.lamport ≤ n
absorbed_bounded v d m n e h k = omega (arith, h, k, absorbed v d m e)

-- The clock that is handed out next, and what it leaves on the disk.
ticked :
    (v : Vault) (d : Disk) (m : Meta) (n : ℕ)
    → d.meta ≡ some m
    → m.lamport ≤ n
    → v.meta.lamport ≤ n
    → suc n < 18446744073709551616
    → (m.lamport < (next_clock v d).0.lamport) × ((next_clock v d).0.lamport ≤ suc n)
unfolding next_clock
ticked v d m n e h k r =
    let a = absorbed_higher v d m e in
    let b = absorbed_bounded v d m n e h k in (omega (arith, a, b, r), omega (arith, a, b, r))

-- A metadata file that keeps the count of what was absorbed.
settled :
    (v : Vault) (d : Disk) (m : Meta) (n : ℕ)
    → d.meta ≡ some m
    → m.lamport ≤ n
    → v.meta.lamport ≤ n
    → (m' : Meta) → m'.lamport ≡ (absorb_disk_meta v d).meta.lamport
    → (d' : Disk) → d'.meta ≡ some m'
    → Moved m (suc n) d'
settled v d m n e h k m' same d' stands =
    let a = absorbed_higher v d m e in
    let b = absorbed_bounded v d m n e h k in
    record {
      meta = m';
      stands = stands;
      higher = omega (arith, a, same);
      bounded = omega (arith, b, same);
    }

lower : {n m : ℕ} → m ≤ n → (ks : List Clock) → Increasing n ks → Increasing m ks
lower h [] i = i
lower h (k ∷ ks) i = (omega (arith, h, i.0), i.1)

lt_of : (a b : ℕ) → ltb a b ≡ true → a < b
lt_of a b h = ground arith

module _ (c : Codec) where
  moved :
      (n : ℕ) (v : Vault) (e : Event) (d : Disk) (m : Meta)
      → d.meta ≡ some m
      → m.lamport ≤ n
      → Fits c n (v, e)
      → suc n < 18446744073709551616
      → Moved m (suc n) (step c e v d).1
  unfolding step next_clock set_relay_url set_sync_cursor reset_sync_cursor write_meta
  moved n v tick d m q h f r =
      let (lo, hi) = ticked v d m n q h f r in
      record { meta = _; stands = refl; higher = omega (arith, lo); bounded = hi }
  moved n v (relay_url u) d m q h f r = settled v d m n q h f _ refl _ refl
  moved n v (advance_cursor u) d m q h f r = settled v d m n q h f _ refl _ refl
  moved n v rewind_cursor d m q h f r = settled v d m n q h f _ refl _ refl
  moved n v (receive (id, blob)) d m q h f r =
      elim (Result-cases (open_entry c.decrypt c.from_slice id blob v.keyring)) [
        | inl (none, e) ↦ rw (apply_remote_entry, e) (settled v d m n q h f.0 _ refl _ refl)
        | inl (some rec, e) ↦
            elim (Bool-cases (ltb (absorb_disk_meta v d).meta.lamport rec.clock.lamport)) [
              | inl b ↦
                  rw (apply_remote_entry, e, b)
                    (record {
                      meta = _;
                      stands = refl;
                      higher = omega (
                        arith,
                        absorbed_higher v d m q,
                        lt_of (absorb_disk_meta v d).meta.lamport rec.clock.lamport b,
                      );
                      bounded = omega (arith, f.1 rec e);
                    })
              | inr b ↦ rw (apply_remote_entry, e, b) (settled v d m n q h f.0 _ refl _ refl)
            ]
        | inr (x, e) ↦
            rw (apply_remote_entry, e)
              (record { meta = m; stands = q; higher = omega arith; bounded = omega (arith, h) })
      ]

  -- Whatever the processes do and in whichever order, each clock that is handed out counts more
  -- than the metadata file did and than every clock before it, so that no clock is used twice: if
  -- meta.json parses, no handle and no received record counts more than the bound at its place,
  -- and the counts stay below 2^64.
  pub clocks-Increasing :
      (n : ℕ) (es : List (Vault × Event)) (d : Disk) (m : Meta)
      → d.meta ≡ some m
      → m.lamport ≤ n
      → Room c n es
      → Increasing m.lamport (clocks c es d)
  unfolding clocks step next_clock
  clocks-Increasing n [] d m q h r = tt
  clocks-Increasing n ((v, tick) ∷ es) d m q h (r, f, rs) =
      let (lo, hi) = ticked v d m n q h f r in
      (lo, clocks-Increasing (suc n) es (next_clock v d).2 _ refl hi rs)
  clocks-Increasing n ((v, relay_url u) ∷ es) d m q h (r, f, rs) =
      let t = moved n v (relay_url u) d m q h f r in
      lower t.higher (clocks c es (step c (relay_url u) v d).1)
        (clocks-Increasing (suc n) es _ t.meta t.stands t.bounded rs)
  clocks-Increasing n ((v, advance_cursor u) ∷ es) d m q h (r, f, rs) =
      let t = moved n v (advance_cursor u) d m q h f r in
      lower t.higher (clocks c es (step c (advance_cursor u) v d).1)
        (clocks-Increasing (suc n) es _ t.meta t.stands t.bounded rs)
  clocks-Increasing n ((v, rewind_cursor) ∷ es) d m q h (r, f, rs) =
      let t = moved n v rewind_cursor d m q h f r in
      lower t.higher (clocks c es (step c rewind_cursor v d).1)
        (clocks-Increasing (suc n) es _ t.meta t.stands t.bounded rs)
  clocks-Increasing n ((v, receive e) ∷ es) d m q h (r, f, rs) =
      let t = moved n v (receive e) d m q h f r in
      lower t.higher (clocks c es (step c (receive e) v d).1)
        (clocks-Increasing (suc n) es _ t.meta t.stands t.bounded rs)
