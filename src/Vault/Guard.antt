-- ===== src/Vault/Guard.antt =====
-- `validate_payload` of src/vault.rs: what may stand in a field.
pub mod Soundness
use mathlib.Core.List.{reverse}
use sshvault.Prelude.{
  ℕ, zero, suc, ◌+◌, Bool, true, false, ◌&&◌, ◌||◌, not, Option, none, some, List, [], ◌∷◌, ◌++◌,
  if◌then◌else◌,
}
use sshvault.Prelude.Order.{Text, text_ord}
use sshvault.Prelude.Texts.{bytes, contains, has}
use sshvault.OrdMap.{OrdMap}
use sshvault.Record.{Kind, private_key, snippet, kind_eq}
use sshvault.Record.Values.{Json, Items, Members}
use sshvault.Record.Fields.{Payload, collect}
use sshvault.Vault.Fail.{Result, done, fail, private_key_material, invalid_field, ◌>>=◌}

-- The object of a map: its members in the order of their names.
unfoldable pub members_of : OrdMap Text Json → Members
members_of [] = Members.end
members_of ((k, v) ∷ m) = Members.member k v (members_of m)

-- The three guards on one string.
unfoldable pub check_string : Kind → Text → Result (Unit {0})
unfolding contains has
check_string kind s =
    if contains (bytes "PRIVATE KEY") s
    then fail private_key_material
    else if has b'\n' s || has b'\r' s
    then fail invalid_field
    else if not (kind_eq kind snippet) && has b'"' s
    then fail invalid_field
    else done tt

-- `stack.extend(a)`: the first of a list is the top of the stack, so the last item is on top.
unfoldable pub extend_items : Items → List Json → List Json
extend_items Items.nil stack = stack
extend_items (Items.cons j rest) stack = extend_items rest (j ∷ stack)

unfoldable pub extend_members : Members → List Json → List Json
extend_members Members.end stack = stack
extend_members (Members.member k j rest) stack = extend_members rest (j ∷ stack)

-- The loop over the stack; `none` when the fuel is spent.
unfoldable pub check_stack : ℕ → Kind → List Json → Option (Result (Unit {0}))
unfolding check_string extend_items extend_members
check_stack fuel kind [] = some (done tt)
check_stack zero kind (v ∷ stack) = none
check_stack (suc fuel) kind (Json.string s ∷ stack) = elim (check_string kind s) [
  | done _ ↦ check_stack fuel kind stack
  | fail e ↦ some (fail e)
]
check_stack (suc fuel) kind (Json.array a ∷ stack) = check_stack fuel kind (extend_items a stack)
check_stack (suc fuel) kind (Json.object o ∷ stack) = check_stack fuel kind (extend_members o stack)
check_stack (suc fuel) kind (_ ∷ stack) = check_stack fuel kind stack

-- How many values stand in a value, itself included: the fuel that the loop takes.
unfoldable mutual
  pub size : Json → ℕ
  size Json.null = 1
  size (Json.bool b) = 1
  size (Json.number n) = 1
  size (Json.string s) = 1
  size (Json.array a) = suc (items_size a)
  size (Json.object o) = suc (members_size o)

  pub items_size : Items → ℕ
  items_size Items.nil = 0
  items_size (Items.cons j rest) = size j + items_size rest

  pub members_size : Members → ℕ
  members_size Members.end = 0
  members_size (Members.member k j rest) = size j + members_size rest

-- Fuel that is spent is an error of its own, which does not come up.
unfoldable pub validate_payload :
    {T : Type 0} ⦃form : Payload T⦄ → Kind → T → Option (Result (Unit {0}))
unfolding check_stack members_of collect
validate_payload ⦃form = form⦄ kind p =
    let value = Json.object (members_of (collect [] (form.to_value p))) in
    let checked = check_stack (size value) kind (value ∷ []) in
    if kind_eq kind private_key then some (done tt) else checked
