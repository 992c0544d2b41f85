-- ===== src/Vault/Transfer.antt =====
-- `export_json` and `import_json` of src/vault.rs. How a payload is read from a value is serde_json's:
-- a parameter.
pub mod Tally
use sshvault.Prelude.{ℕ, ◌+◌, Option, none, some, List, [], ◌∷◌, map, if◌then◌else◌}
use sshvault.Prelude.Order.{Text, text_eq}
use sshvault.Prelude.Texts.{bytes}
use sshvault.Record.{Uuid, Kind}
use sshvault.Record.Values.{Json, Items, Members}
use sshvault.Record.Payloads.{Host, Snippet, PortForward, KeyMeta}
use sshvault.Record.Fields.{collect}
use sshvault.Record.Roundtrip.{
  Form, Carrier, form_of, host_form, snippet_form, port_forward_form, key_meta_form,
}
use sshvault.Vault.Fail.{Result, done, fail, corrupt, duplicate}
use sshvault.Vault.Guard.{members_of}
use sshvault.Vault.Store.{Vault, Disk, Codec}
use sshvault.Vault.Edit.{add}
use sshvault.Vault.Listing.{list}

-- `serde_json::to_value` of a payload
unfoldable pub written : (f : Form) → Carrier f → Json
unfolding members_of collect
written f p = Json.object (members_of (collect [] ((form_of f).to_value p)))

unfoldable pub items_from : List Json → Items
items_from [] = Items.nil
items_from (j ∷ js) = Items.cons j (items_from js)

unfoldable pub export_kind : Form → Kind → Vault → Json
unfolding list written items_from
export_kind f kind v =
    Json.array (items_from (map (λ e. written f e.1) (list ⦃form = form_of f⦄ kind v)))

-- The members of an object stand in the order of their names.
unfoldable pub export_json : Vault → Json
unfolding export_kind
export_json v = Json.object (
    Members.member (bytes "forwards") (export_kind port_forward_form Kind.port_forward v) (
      Members.member (bytes "hosts") (export_kind host_form Kind.host v) (
        Members.member (bytes "keys") (export_kind key_meta_form Kind.key_meta v) (
          Members.member (bytes "snippets") (export_kind snippet_form Kind.snippet v)
            (Members.member (bytes "version") (Json.number 1) Members.end)))))

field_of : Text → Members → Option Json
field_of key Members.end = none
field_of key (Members.member k j rest) = if text_eq k key then some j else field_of key rest

list_of : Items → List Json
list_of Items.nil = []
list_of (Items.cons j rest) = j ∷ list_of rest

array_of : Option Json → List Json
unfolding list_of
array_of (some (Json.array a)) = list_of a
array_of _ = []

-- `json.get(key)` as an array; what is missing or no array has no items.
unfoldable pub items_at : Text → Json → List Json
unfolding field_of array_of
items_at key (Json.object o) = array_of (field_of key o)
items_at key _ = []

-- What one `add` takes: the record's id, the entry id, the nonce and the time.
pub record Choice : Type 0 where
  pub id : Uuid
  pub entry_id : Text
  pub nonce : Text
  pub now : ℕ

-- A step on the handle and the files; what was added before an error stays.
abbrev pub Step : Type 0 → Type 0
Step A = Vault → Disk → Result A × Vault × Disk

unfoldable pub next_step :
    {A B : Type 0} → Result A × Vault × Disk → (A → Step B) → Result B × Vault × Disk
next_step (done a, v, d) f = f a v d
next_step (fail e, v, d) f = (fail e, v, d)

infixl 10 ◌>>=◌
unfoldable pub ◌>>=◌ : {A B : Type 0} → Step A → (A → Step B) → Step B
unfolding next_step
(s >>= f) v d = next_step (s v d) f

-- An added payload counts as imported, and one whose name is taken as skipped.
unfoldable pub counted : ℕ × ℕ → Result Uuid × Vault × Disk → Result (ℕ × ℕ) × Vault × Disk
counted (imported, skipped) (done _, v, d) = (done (imported + 1, skipped), v, d)
counted (imported, skipped) (fail duplicate, v, d) = (done (imported, skipped + 1), v, d)
counted _ (fail e, v, d) = (fail e, v, d)

-- What the items are read and added with: the choices of each `add`, by how many came before.
module _ (read_value : (f : Form) → Json → Option (Carrier f)) (c : Codec)
    (choice : ℕ → Choice) where
  module _ (f : Form) (kind : Kind) (name_field : Text) (name_of : Carrier f → Text) where
    unfoldable pub import_item : Json → ℕ × ℕ → Step (ℕ × ℕ)
    unfolding add counted
    import_item item tally v d = elim (read_value f item) [
      | none ↦ (fail corrupt, v, d)
      | some p ↦
          let chosen = choice (tally.0 + tally.1) in
          counted tally (
            add c ⦃form = form_of f⦄ chosen.entry_id chosen.nonce chosen.now chosen.id kind
              name_field (name_of p) p v d)
    ]

    unfoldable pub import_kind : List Json → ℕ × ℕ → Step (ℕ × ℕ)
    unfolding import_item ◌>>=◌
    import_kind [] tally v d = (done tally, v, d)
    import_kind (item ∷ items) tally v d =
        (import_item item tally >>= (λ next. import_kind items next)) v d

  -- How many were imported and how many were skipped.
  unfoldable pub import_json : Json → Step (ℕ × ℕ)
  unfolding import_kind items_at ◌>>=◌
  import_json json = do
    hosts ←
        import_kind host_form Kind.host (bytes "alias") (λ (h : Host). h.alias)
          (items_at (bytes "hosts") json) (0, 0)
    snippets ←
        import_kind snippet_form Kind.snippet (bytes "name") (λ (s : Snippet). s.name)
          (items_at (bytes "snippets") json) hosts
    forwards ←
        import_kind port_forward_form Kind.port_forward (bytes "name") (λ (p : PortForward). p.name)
          (items_at (bytes "forwards") json) snippets
    import_kind key_meta_form Kind.key_meta (bytes "name") (λ (k : KeyMeta). k.name)
        (items_at (bytes "keys") json) forwards
