-- ===== src/Record/Fields.antt =====
-- `fields_from_payload` and `Record::payload` of src/record.rs, over any payload.
use sshvault.Prelude.{◌≡◌, Option, none, some, [], ◌∷◌}
use sshvault.Prelude.Order.{Text, text_ord}
use sshvault.OrdMap.{OrdMap, insert}
use sshvault.Record.{Clock, Fields, Record}
use sshvault.Record.Values.{Json}
use sshvault.Record.Payloads.{Written}

-- `serde_json::Map`, in the order of its keys: what is skipped is not in it.
unfoldable pub collect : OrdMap Text Json → Written → OrdMap Text Json
unfolding insert
collect m [] = m
collect m ((k, none) ∷ ws) = collect m ws
collect m ((k, some v) ∷ ws) = collect (insert k v m) ws

-- A payload is written and read, and one whose numbers are those of their machine types is read
-- back.
pub record Payload (T : Type 0) : Type 1 where
  pub to_value : T → Written
  pub from_value : OrdMap Text Json → Option T
  pub InRange : T → Type 0
  pub read-write : (p : T) → InRange p → from_value (collect [] (to_value p)) ≡ some p

unfoldable pub stamp : Clock → OrdMap Text Json → Fields
stamp clock [] = []
stamp clock ((k, v) ∷ m) = (k, record { value = v; clock = clock }) ∷ stamp clock m

unfoldable pub field_values : Fields → OrdMap Text Json
field_values [] = []
field_values ((k, f) ∷ m) = (k, f.value) ∷ field_values m

module _ {T : Type 0} ⦃form : Payload T⦄ where
  unfoldable pub fields_from_payload : T → Clock → Fields
  unfolding stamp collect
  fields_from_payload p clock = stamp clock (collect [] (form.to_value p))

  unfoldable pub payload : Record → Option T
  unfolding field_values
  payload r = form.from_value (field_values r.fields)
