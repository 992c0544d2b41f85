-- ===== src/Vault/Transfer/Tally.antt =====
-- What an import leaves in the log, and what it counts.
use mathlib.Core.List.{append_assoc, append-nil}
use sshvault.Prelude.{
  ℕ, ◌+◌, ◌≡◌, refl, ap, sym, ◌∙◌, subst, Option, none, List, [], ◌∷◌, ◌++◌, arith, length, inl,
  inr, length-append, Bool-cases, Option-cases,
}
use sshvault.Prelude.Order.{Text}
use sshvault.Prelude.Texts.{bytes}
use sshvault.Record.{Uuid, nil_uuid, Kind, Record}
use sshvault.Record.Values.{Json}
use sshvault.Record.Payloads.{Host, Snippet, PortForward, KeyMeta}
use sshvault.Record.Fields.{Payload, fields_from_payload}
use sshvault.Record.Roundtrip.{
  Form, Carrier, form_of, host_form, snippet_form, port_forward_form, key_meta_form,
}
use sshvault.Vault.Fail.{Result, VaultError, done, fail, Result-cases}
use sshvault.Vault.Frames.{RawEntry, frame_of, log_of}
use sshvault.Vault.Frames.Canonical.{log_of-append}
use sshvault.Vault.Keyring.{current_for, has_share}
use sshvault.Vault.Store.{Vault, Disk, Codec, next_clock, append, write_frame}
use sshvault.Vault.Guard.{validate_payload}
use sshvault.Vault.Edit.{accepted, appended, add_in, add, find}
use sshvault.Vault.Edit.Added.{next_clock_keeps}
use sshvault.Vault.Transfer.{
  Choice, Step, next_step, ◌>>=◌, counted, items_at, import_item, import_kind, import_json,
}

-- The log has grown by the frames.
abbrev Grows : Text → List RawEntry → Disk → Type 0
Grows log fs d' = d'.log ≡ log ++ log_of fs

-- After an addition that succeeds the log has one more frame, and after one that fails none.
abbrev Adds {ℓ} : {A : Type ℓ} → Text → Result A × Vault × Disk → Type 0
Adds log (done _, _, d') = (e : RawEntry) × Grows log (e ∷ []) d'
Adds log (fail _, _, d') = d'.log ≡ log

-- A count of what was imported and skipped, after as many more items, with the frames of the log.
abbrev pub Tallied : ℕ × ℕ → ℕ → Text → Result (ℕ × ℕ) × Vault × Disk → Type 0
Tallied tally items log (done (imported, skipped), _, d') =
    (fs : List RawEntry) × (d'.log ≡ log ++ log_of fs)
    × (imported ≡ tally.0 + length fs)
    × (imported + skipped ≡ tally.0 + tally.1 + items)
Tallied tally items log (fail _, _, d') = (fs : List RawEntry) × (d'.log ≡ log ++ log_of fs)

no_frames : (log : Text) (d' : Disk) → d'.log ≡ log → Grows log [] d'
unfolding log_of
no_frames log d' h = h ∙ sym (append-nil log)

frames_twice :
    (log : Text) (e f : Disk) (xs ys : List RawEntry)
    → Grows log xs e
    → Grows e.log ys f
    → Grows log (xs ++ ys) f
frames_twice log e f xs ys h k =
    k
    ∙ ap (λ l. l ++ log_of ys) h
    ∙ append_assoc log (log_of xs) (log_of ys)
    ∙ ap (λ l. log ++ l) (sym (log_of-append xs ys))

counted-Tallied :
    (tally : ℕ × ℕ) (log : Text) (r : Result Uuid × Vault × Disk)
    → Adds log r
    → Tallied tally 1 log (counted tally r)
unfolding counted
counted-Tallied (i, s) log (done id, v, d') (e, h) = (e ∷ [], h, refl, omega arith)
counted-Tallied (i, s) log (fail x, v, d') h =
    elim x as (λ x. Tallied (i, s) 1 log (counted (i, s) (fail x, v, d'))) [
      | VaultError.duplicate ↦ ([], no_frames log d' h, omega arith, omega arith)
      | _ ↦ ([], no_frames log d' h)
    ]

module _ (c : Codec) where
  append-Adds {ℓ} :
      {A : Type ℓ} (a : A) (entry_id nonce : Text) (r : Record) (v : Vault) (d : Disk)
      → Adds d.log (appended a v d (append c entry_id nonce r v d))
  unfolding append appended write_frame log_of
  append-Adds a entry_id nonce r v d = elim (Option-cases (current_for v.keyring r.share_id)) [
    | inl e ↦ rw (append, e) refl
    | inr (key, e) ↦
        let entry : RawEntry = (entry_id, c.seal key (c.to_vec r) entry_id nonce) in
        rw (append, e) (entry, ap (λ l. d.log ++ l) (sym (append-nil (frame_of entry))))
  ]

  add-Adds :
      {T : Type 0} ⦃form : Payload T⦄ (entry_id nonce : Text) (now : ℕ) (id : Uuid) (kind : Kind)
      (name_field name : Text) (p : T) (v : Vault) (d : Disk)
      → Adds d.log (add c entry_id nonce now id kind name_field name p v d)
  unfolding add add_in
  add-Adds entry_id nonce now id kind name_field name p v d =
      elim (Result-cases (accepted (validate_payload kind p))) [
        | inr (x, e) ↦ rw (add_in, e) refl
        | inl (_, e) ↦ elim (Bool-cases (has_share v.keyring nil_uuid)) [
          | inr s ↦ rw (add_in, e, s) refl
          | inl s ↦ elim (Option-cases (find kind name_field name v)) [
            | inr (r, f) ↦ rw (add_in, e, s, f) refl
            | inl f ↦
                let (clock, v', d') = next_clock v d in
                let rec : Record = record {
                  id = id;
                  kind = kind;
                  fields = fields_from_payload p clock;
                  deleted_at = none;
                  clock = clock;
                  device_id = v'.meta.device_id;
                  modified_at = now;
                  share_id = nil_uuid;
                } in
                rw (add_in, e, s, f)
                  (subst (λ l. Adds l (appended id v' d' (append c entry_id nonce rec v' d')))
                    (next_clock_keeps v d).2 (append-Adds id entry_id nonce rec v' d'))
          ]
        ]
      ]

-- Two steps one after the other.
both_tally :
    (tally : ℕ × ℕ) (n m : ℕ) (log : Text) (r : Result (ℕ × ℕ) × Vault × Disk)
    (f : ℕ × ℕ → Step (ℕ × ℕ))
    → Tallied tally n log r
    → ((next : ℕ × ℕ) (v : Vault) (d : Disk) → Tallied next m d.log (f next v d))
    → Tallied tally (n + m) log (next_step r f)
unfolding next_step
both_tally tally n m log (fail e, v, d) f h k = h
both_tally tally n m log (done next, v, d) f (fs, g, i, t) k = after (f next v d) (k next v d)
  where
    after :
        (r : Result (ℕ × ℕ) × Vault × Disk) → Tallied next m d.log r → Tallied tally (n + m) log r
    after (fail e, v', d') (gs, l) = (fs ++ gs, frames_twice log d d' fs gs g l)
    after (done (i', s'), v', d') (gs, l, j, u) = (
      fs ++ gs,
      frames_twice log d d' fs gs g l,
      omega (arith, i, j, length-append fs gs),
      omega (arith, t, u),
    )

-- How many items an import reads, of the four kinds.
abbrev pub items_in : Json → ℕ
items_in json =
    length (items_at (bytes "hosts") json)
    + (length (items_at (bytes "snippets") json)
        + (length (items_at (bytes "forwards") json) + length (items_at (bytes "keys") json)))

module _ (read_value : (f : Form) → Json → Option (Carrier f)) (c : Codec)
    (choice : ℕ → Choice) where
  module _ (f : Form) (kind : Kind) (name_field : Text) (name_of : Carrier f → Text) where
    item_tally :
        (item : Json) (tally : ℕ × ℕ) (v : Vault) (d : Disk)
        → Tallied tally 1 d.log
            (import_item read_value c choice f kind name_field name_of item tally v d)
    unfolding import_item
    item_tally item tally v d = elim (Option-cases (read_value f item)) [
      | inl e ↦ rw (import_item, e) ([], no_frames d.log d refl)
      | inr (p, e) ↦
          let chosen = choice (tally.0 + tally.1) in
          let r =
            add c ⦃form = form_of f⦄ chosen.entry_id chosen.nonce chosen.now chosen.id kind
              name_field (name_of p) p v d in
          rw (import_item, e)
            (counted-Tallied tally d.log r (
              add-Adds c ⦃form = form_of f⦄ chosen.entry_id chosen.nonce chosen.now chosen.id kind
                name_field (name_of p) p v d))
    ]

    kind_tally :
        (items : List Json) (tally : ℕ × ℕ) (v : Vault) (d : Disk)
        → Tallied tally
            (length items)
            d.log
            (import_kind read_value c choice f kind name_field name_of items tally v d)
    unfolding import_kind
    kind_tally [] tally v d = ([], no_frames d.log d refl, omega arith, omega arith)
    kind_tally (item ∷ items) tally v d =
        subst
          (λ n.
            Tallied tally n d.log
              (import_kind read_value c choice f kind name_field name_of (item ∷ items) tally v d))
          (omega arith)
          (both_tally tally 1 (length items) d.log
            (import_item read_value c choice f kind name_field name_of item tally v d)
            (λ next. import_kind read_value c choice f kind name_field name_of items next)
            (item_tally item tally v d) (λ next v d. kind_tally items next v d))

  -- An import that succeeds has counted every item of the four kinds once, and the log has grown by
  -- just as many frames as it counts as imported; one that fails leaves in the log what it was
  -- before, with the frames of what was added until then.
  pub import_json-Tallied :
      (json : Json) (v : Vault) (d : Disk)
      → Tallied (0, 0) (items_in json) d.log (import_json read_value c choice json v d)
  unfolding import_json
  import_json-Tallied json v d =
      let imports = λ (f : Form) (kind : Kind) (key : Text) (name : Carrier f → Text) (at : Text).
        import_kind read_value c choice f kind key name (items_at at json) in
      let keys =
        imports key_meta_form Kind.key_meta (bytes "name") (λ (k : KeyMeta). k.name)
          (bytes "keys") in
      let forwards =
        imports port_forward_form Kind.port_forward (bytes "name") (λ (p : PortForward). p.name)
          (bytes "forwards") in
      let snippets =
        imports snippet_form Kind.snippet (bytes "name") (λ (s : Snippet). s.name)
          (bytes "snippets") in
      both_tally (0, 0) _ _ d.log _ _
        (kind_tally host_form Kind.host (bytes "alias") (λ (h : Host). h.alias)
          (items_at (bytes "hosts") json) (0, 0) v d)
        (λ next v d.
          both_tally next _ _ d.log (snippets next v d) (λ next. forwards next >>= keys)
            (kind_tally snippet_form Kind.snippet (bytes "name") (λ (s : Snippet). s.name)
              (items_at (bytes "snippets") json) next v d)
            (λ next v d.
              both_tally next _ _ d.log (forwards next v d) keys
                (kind_tally port_forward_form Kind.port_forward (bytes "name")
                  (λ (p : PortForward). p.name) (items_at (bytes "forwards") json) next v d)
                (λ next v d.
                  kind_tally key_meta_form Kind.key_meta (bytes "name") (λ (k : KeyMeta). k.name)
                    (items_at (bytes "keys") json) next v d)))
