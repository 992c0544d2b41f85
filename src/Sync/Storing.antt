-- ===== src/Sync/Storing.antt =====
-- What the loop over the pulled entries of src/sync.rs writes to the log.
use mathlib.Core.List.{append_assoc, append-nil}
use sshvault.Prelude.{
  ℕ, ◌+◌, ◌≡◌, refl, ap, sym, ◌∙◌, Bool, true, false, none, some, List, [], ◌∷◌, ◌++◌, arith,
  length, length-append, inl, inr, Bool-cases, Option-cases, if◌then◌else◌,
}
use sshvault.Prelude.Order.{Text}
use sshvault.Proto.{WireEntry}
use sshvault.Vault.Fail.{Result, done, fail, Result-cases}
use sshvault.Vault.Frames.Canonical.{log_of-append}
use sshvault.Vault.Frames.{RawEntry, frame_of, log_of}
use sshvault.Vault.Keyring.{open_entry}
use sshvault.Vault.Store.{Vault, Disk, Codec, apply_remote_entry}
use sshvault.Sync.{
  Synced, synced, broken, Step, Client, ◌>>=◌, lift, pure, change, decode16, contains_id,
  store_entry, apply_entries, decode_blob, wrote,
}
use sshvault.Sync.Runs.{both, lifted}

-- The frames that entries leave, where `have` was there before.
pub data Stores (client : Client) (have : List Text) : List WireEntry → List RawEntry → Type 0 where
  nothing : Stores client have [] []
  known :
      (id : Text) {e : WireEntry} {es : List WireEntry} {frames : List RawEntry}
      → decode16 client e.entry_id_b64 ≡ synced id
      → contains_id have id ≡ true
      → Stores client have es frames
      → Stores client have (e ∷ es) frames
  new :
      (id blob : Text) {e : WireEntry} {es : List WireEntry} {frames : List RawEntry}
      → decode16 client e.entry_id_b64 ≡ synced id
      → contains_id have id ≡ false
      → client.b64_decode e.blob_b64 ≡ some blob
      → Stores client have es frames
      → Stores client have (e ∷ es) ((id, blob) ∷ frames)

abbrev log_left : Result (Vault × Disk) → Text → Text
log_left (done (v, d)) log = d.log
log_left (fail e) log = log

appended :
    (c : Codec) (id blob : Text) (v : Vault) (d : Disk)
    → log_left (apply_remote_entry c (id, blob) v d) (d.log ++ frame_of (id, blob))
      ≡ d.log ++ frame_of (id, blob)
unfolding apply_remote_entry
appended c id blob v d = elim (Result-cases (open_entry c.decrypt c.from_slice id blob v.keyring)) [
  | inl (none, e) ↦ rw (apply_remote_entry, e) refl
  | inl (some rec, e) ↦ rw (apply_remote_entry, e) refl
  | inr (x, e) ↦ rw (apply_remote_entry, e) refl
]

wrote_log :
    (r : Result (Vault × Disk)) (v v1 : Vault) (d d1 : Disk) (log : Text)
    → wrote r v d ≡ (synced tt, v1, d1)
    → d1.log ≡ log_left r log
unfolding wrote
wrote_log (done (v', d')) v v1 d d1 log h = ap (λ x. x.2.log) (sym h)
wrote_log (fail e) v v1 d d1 log h = absurd (ground arith)

applied :
    (c : Codec) (id blob : Text) (v v1 : Vault) (d d1 : Disk)
    → change (apply_remote_entry c (id, blob)) v d ≡ (synced tt, v1, d1)
    → d1.log ≡ d.log ++ frame_of (id, blob)
unfolding change
applied c id blob v v1 d d1 h =
    wrote_log (apply_remote_entry c (id, blob) v d) v v1 d d1 (d.log ++ frame_of (id, blob)) h
    ∙ appended c id blob v d

blob_of :
    (client : Client) (b64 b : Text)
    → decode_blob client b64 ≡ synced b
    → client.b64_decode b64 ≡ some b
unfolding decode_blob
blob_of client b64 b h = elim (Option-cases (client.b64_decode b64)) [
  | inl e ↦ absurd (ground arith)
  | inr (a, e) ↦ ground arith
]

-- What the loop leaves.
pub record Pulled (client : Client) (have : List Text) (es : List WireEntry) (before : ℕ) (d : Disk)
    (after : ℕ) (d' : Disk) : Type 0 where
  pub frames : List RawEntry
  pub stores : Stores client have es frames
  pub count : after ≡ before + length frames
  pub log : d'.log ≡ d.log ++ log_of frames

abbrev number : Synced ℕ → ℕ → ℕ
number (synced n) m = n
number (broken x) m = m

abbrev flag : Synced Bool → Bool
flag (synced b) = b
flag (broken x) = false

-- What an entry leaves.
record Stored (client : Client) (have : List Text) (e : WireEntry) (id : Text) (d : Disk)
    (stored : Bool) (d' : Disk) : Type 0 where
  frames : List RawEntry
  count : length frames ≡ (if stored then 1 else 0)
  pub log : d'.log ≡ d.log ++ log_of frames
  stores :
      (es : List WireEntry) (fs : List RawEntry)
      → decode16 client e.entry_id_b64 ≡ synced id
      → Stores client have es fs
      → Stores client have (e ∷ es) (frames ++ fs)

counted :
    (n : ℕ) (stored : Bool) (a b ab : ℕ)
    → a ≡ (if stored then 1 else 0)
    → ab ≡ a + b
    → (if stored then n + 1 else n) + b ≡ n + ab
counted n true a b ab h k = omega (arith, h, k)
counted n false a b ab h k = omega (arith, h, k)

module _ (client : Client) (c : Codec) (have : List Text) where
  store_known :
      (e : WireEntry) (id : Text) (v : Vault) (d : Disk)
      → contains_id have id ≡ true
      → store_entry client c have e id v d ≡ pure false v d
  unfolding store_entry
  store_known e id v d k = rw (store_entry, k) refl

  storing : WireEntry → Text → Step Bool
  unfolding ◌>>=◌ pure lift change
  storing e id = do
    blob ← lift (decode_blob client e.blob_b64)
    _ ← change (apply_remote_entry c (id, blob))
    pure true

  store_new :
      (e : WireEntry) (id : Text) (v : Vault) (d : Disk)
      → contains_id have id ≡ false
      → store_entry client c have e id v d ≡ storing e id v d
  unfolding store_entry storing
  store_new e id v d k = rw (store_entry, k) refl

  adds_frame :
      (e : WireEntry) (id : Text) (stored : Bool) (v v' : Vault) (d d' : Disk)
      → contains_id have id ≡ false
      → storing e id v d ≡ (synced stored, v', d')
      → Stored client have e id d stored d'
  unfolding storing pure log_of
  adds_frame e id stored v v' d d' k h =
      let b = both (lift (decode_blob client e.blob_b64)) _ v d stored v' d' h in
      let (blob_is, same_v, same_d) =
        lifted (decode_blob client e.blob_b64) b.value v b.handle d b.disk b.first in
      let b2 =
        both (change (apply_remote_entry c (id, b.value))) _ b.handle b.disk stored v' d'
          b.second in
      let grown = applied c id b.value b.handle b2.handle b.disk b2.disk b2.first in
      let flag_is : true ≡ stored = ap (λ x. flag x.0) b2.second in
      record {
        frames = (id, b.value) ∷ [];
        count = ap (λ b. if b then 1 else 0) flag_is;
        log =
            ap (λ x. x.2.log) (sym b2.second)
            ∙ grown
            ∙ ap (λ (x : Disk). x.log ++ frame_of (id, b.value)) (sym same_d)
            ∙ ap (λ l. d.log ++ l) (sym (append-nil (frame_of (id, b.value))));
        stores = λ es fs id_is rest.
            Stores.new id b.value id_is k (blob_of client e.blob_b64 b.value blob_is) rest;
      }

  passes_over :
      (e : WireEntry) (id : Text) (stored : Bool) (v v' : Vault) (d d' : Disk)
      → contains_id have id ≡ true
      → pure false v d ≡ (synced stored, v', d')
      → Stored client have e id d stored d'
  unfolding log_of pure
  passes_over e id stored v v' d d' k h = record {
    frames = [];
    count = ap (λ x. if flag x.0 then 1 else 0) h;
    log = ap (λ x. x.2.log) (sym h) ∙ sym (append-nil d.log);
    stores = λ es fs id_is rest. Stores.known id id_is k rest;
  }

  store_entry-Stored :
      (e : WireEntry) (id : Text) (stored : Bool) (v v' : Vault) (d d' : Disk)
      → store_entry client c have e id v d ≡ (synced stored, v', d')
      → Stored client have e id d stored d'
  store_entry-Stored e id stored v v' d d' h = elim (Bool-cases (contains_id have id)) [
    | inl k ↦ passes_over e id stored v v' d d' k (sym (store_known e id v d k) ∙ h)
    | inr k ↦ adds_frame e id stored v v' d d' k (sym (store_new e id v d k) ∙ h)
  ]

  pub apply_entries-Pulled :
      (es : List WireEntry) (n m : ℕ) (v v' : Vault) (d d' : Disk)
      → apply_entries client c have n es v d ≡ (synced m, v', d')
      → Pulled client have es n d m d'
  unfolding apply_entries pure lift log_of
  apply_entries-Pulled [] n m v v' d d' h = record {
    frames = [];
    stores = nothing;
    count = sym (ap (λ x. number x.0 0) h) ∙ omega arith;
    log = ap (λ x. x.2.log) (sym h) ∙ sym (append-nil d.log);
  }
  apply_entries-Pulled (e ∷ es) n m v v' d d' h =
      let b = both (lift (decode16 client e.entry_id_b64)) _ v d m v' d' h in
      let (id_of, same_v, same_d) =
        lifted (decode16 client e.entry_id_b64) b.value v b.handle d b.disk b.first in
      let b2 = both (store_entry client c have e b.value) _ b.handle b.disk m v' d' b.second in
      let s = store_entry-Stored e b.value b2.value b.handle b2.handle b.disk b2.disk b2.first in
      let rest = apply_entries-Pulled es _ m b2.handle v' b2.disk d' b2.second in
      record {
        frames = s.frames ++ rest.frames;
        stores = s.stores es rest.frames id_of rest.stores;
        count =
            rest.count
            ∙ counted n b2.value (length s.frames) (length rest.frames)
                (length (s.frames ++ rest.frames)) s.count (length-append s.frames rest.frames);
        log =
            rest.log
            ∙ ap (λ l. l ++ log_of rest.frames)
                (s.log ∙ ap (λ (x : Disk). x.log ++ log_of s.frames) (sym same_d))
            ∙ append_assoc d.log (log_of s.frames) (log_of rest.frames)
            ∙ ap (λ l. d.log ++ l) (sym (log_of-append s.frames rest.frames));
      }
