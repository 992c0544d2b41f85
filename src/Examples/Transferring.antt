-- ===== src/Examples/Transferring.antt =====
-- A document of two hosts of one name, read by a vault that holds none.
use sshvault.Prelude.{ℕ, ◌≡◌, refl, Option, none, [], ◌∷◌}
use sshvault.Prelude.Order.{Text, text_ord}
use sshvault.Prelude.Texts.{bytes}
use sshvault.OrdMap.{OrdMap, insert}
use sshvault.Record.Values.{Json, Items, Members}
use sshvault.Record.Payloads.{Host}
use sshvault.Record.Roundtrip.{Form, Carrier, form_of, host_form}
use sshvault.Vault.Fail.{done}
use sshvault.Vault.Transfer.{Choice, written, import_json}
use sshvault.Vault.Transfer.Tally.{Tallied, import_json-Tallied}
use sshvault.Examples.Editing.{host_of, codec, empty_vault, disk}

as_map : Members → OrdMap Text Json
as_map Members.end = []
as_map (Members.member k j rest) = insert k j (as_map rest)

reader : (f : Form) → Json → Option (Carrier f)
unfolding as_map
reader f (Json.object o) = (form_of f).from_value (as_map o)
reader f _ = none

abbrev choice : ℕ → Choice
choice n = record { id = 5; entry_id = n ∷ []; nonce = []; now = 0 }

abbrev document : Json
document = Json.object (
    Members.member (bytes "hosts")
      (Json.array (
        Items.cons (written host_form (host_of (bytes "a.b")))
          (Items.cons (written host_form (host_of (bytes "c.d"))) Items.nil)))
      Members.end)

one_of_two : (import_json reader codec choice document empty_vault disk).0 ≡ done (1, 1)
unfolding import_json reader written sshvault.Record.Reading.read_host
    sshvault.Record.Payloads.write_host sshvault.Vault.Guard.size native.Mathlib.Decide.ℕ_discrete
one_of_two = refl

import_json-Tallied_example :
    Tallied (0, 0) 2 disk.log (import_json reader codec choice document empty_vault disk)
unfolding sshvault.Vault.Transfer.items_at
import_json-Tallied_example = import_json-Tallied reader codec choice document empty_vault disk
