-- ===== src/Vault/Listing.antt =====
-- `list`, `resolve_share` and `share_names` of src/vault.rs. Base64 is a package's: its decoder is a
-- parameter.
use sshvault.Prelude.{
  ◌+◌, ◌*◌, ◌&&◌, Option, none, some, List, [], ◌∷◌, foldl, length, ◌==◌, if◌then◌else◌,
}
use sshvault.Prelude.Options.{◌>>=◌}
use sshvault.Prelude.Order.{Text}
use sshvault.Prelude.Texts.{bytes}
use sshvault.OrdMap.{values}
use sshvault.Record.{Uuid, Kind, share_name, Record, kind_eq}
use sshvault.Record.Payloads.{ShareName}
use sshvault.Record.Fields.{Payload, payload}
use sshvault.Record.Roundtrip.{form_of, share_name_form}
use sshvault.Merge.{live}
use sshvault.Vault.Store.{Vault}
use sshvault.Vault.Edit.{find}

-- The payloads of the live records of a kind; what does not read as one is passed over.
unfoldable pub payloads : {T : Type 0} ⦃form : Payload T⦄ → Kind → List Record → List (Uuid × T)
unfolding live payload
payloads kind [] = []
payloads kind (r ∷ rs) =
    let rest = payloads kind rs in
    if live r && kind_eq r.kind kind
    then elim (payload r) [ none ↦ rest | some p ↦ (r.id, p) ∷ rest ]
    else rest

-- The records come in the order of their ids, which is the order that the list is brought into.
unfoldable pub list : {T : Type 0} ⦃form : Payload T⦄ → Kind → Vault → List (Uuid × T)
unfolding payloads values
list kind v = payloads kind (values v.state)

-- `Uuid::from_bytes` of 16 bytes, or nothing
unfoldable pub uuid_from_slice : Text → Option Uuid
uuid_from_slice bs = if length bs == 16 then some (foldl (λ n b. n * 256 + b) 0 bs) else none

module _ (b64_decode : Text → Option Text) where
  unfoldable pub resolve_share : Text → Vault → Option Uuid
  unfolding find payload uuid_from_slice
  resolve_share name v = do
    r ← find share_name (bytes "name") name v
    shared ← payload ⦃form = form_of share_name_form⦄ r
    decoded ← b64_decode shared.share_id_b64
    uuid_from_slice decoded

  unfoldable pub share_ids : List (Uuid × ShareName) → List (Text × Uuid)
  unfolding uuid_from_slice
  share_ids [] = []
  share_ids ((_, shared) ∷ rest) =
      let others = share_ids rest in
      elim (b64_decode shared.share_id_b64 >>= uuid_from_slice) [
        | none ↦ others
        | some id ↦ (shared.name, id) ∷ others
      ]

  unfoldable pub share_names : Vault → List (Text × Uuid)
  unfolding share_ids list
  share_names v = share_ids (list ⦃form = form_of share_name_form⦄ share_name v)
