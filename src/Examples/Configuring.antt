-- ===== src/Examples/Configuring.antt =====
-- A host, two forwards and a user's config.
use sshvault.Prelude.{
  ◌≡◌, ◌≢◌, ◌≤◌, ◌↔◌, ◌⊎◌, refl, some, none, false, Bool, List, [], ◌∷◌, ◌++◌, All, length, arith,
}
use sshvault.Prelude.Order.{Text}
use sshvault.Prelude.Texts.{bytes, has, split}
use sshvault.Record.{Clock, Kind, Record}
use sshvault.Record.Payloads.{Host, ForwardKind, PortForward}
use sshvault.Record.Fields.{collect, payload, fields_from_payload}
use sshvault.Record.Roundtrip.{form_of, host_form, payload-fields_from_payload}
use sshvault.Vault.Fail.{Result, done}
use sshvault.Vault.Guard.{members_of, validate_payload}
use sshvault.Vault.Guard.Soundness.{AllMembers, IsAllowed, validate_payload_iff}
use sshvault.Sshconfig.{
  SshDir, valid, validate_forward_spec, render_forward, render_kind, render_block, render, apply,
  contents,
}
use sshvault.Sshconfig.Forwards.{IsToken, spaced, render_forward-Tokens, render_kind-none_iff}
use sshvault.Sshconfig.Blocks.{block_lines, split-render_block}
use sshvault.Sshconfig.Include.{apply_twice}

abbrev web : Host
web = record {
  alias = bytes "web";
  hostname = some (bytes "10.0.0.7");
  port = some 2222;
  user = none;
  jump_host = some (bytes "my jump");
  identity_file = none;
  tags = bytes "prod" ∷ [];
}

abbrev tunnel : PortForward
tunnel = record {
  name = bytes "db";
  kind = ForwardKind.local;
  spec = bytes "127.0.0.1:8080:db:80";
  host = bytes "web";
}

abbrev now : Clock
now = record { lamport = 5; device = 9 }

abbrev web_record : Record
web_record = record {
  id = 3;
  kind = Kind.host;
  fields = fields_from_payload ⦃form = form_of host_form⦄ web now;
  deleted_at = none;
  clock = now;
  device_id = 9;
  modified_at = 0;
  share_id = 0;
}

payload-fields_from_payload_example :
    (payload ⦃form = form_of host_form⦄ web_record ≡ some web)
    × All (λ e. e.1.clock ≡ now) web_record.fields
payload-fields_from_payload_example =
    payload-fields_from_payload host_form web now web_record (omega arith) refl

validate_payload_iff_example :
    (result : Result (Unit {0})) × (validate_payload ⦃form = form_of host_form⦄ Kind.host web
      ≡ some result)
    × ((result ≡ done tt) ↔ (
        (Kind.host ≡ Kind.private_key)
        ⊎ AllMembers
            (IsAllowed Kind.host)
            (members_of (collect [] ((form_of host_form).to_value web)))))
validate_payload_iff_example = validate_payload_iff ⦃form = form_of host_form⦄ Kind.host web

accepted : validate_payload ⦃form = form_of host_form⦄ Kind.host web ≡ some (done tt)
unfolding validate_payload sshvault.Vault.Guard.size sshvault.Record.Payloads.write_host
accepted = refl

split-render_block_example : split 10 (render_block web) ≡ [] ∷ block_lines web ++ ([] ∷ [])
split-render_block_example = split-render_block web accepted

checked : validate_forward_spec ForwardKind.local (bytes "127.0.0.1:8080:db:80") ≡ valid
unfolding validate_forward_spec
checked = refl

render_forward-Tokens_example :
    (args : List Text) × (render_forward tunnel
      ≡ some ((bytes "    " ++ bytes "LocalForward") ++ spaced args ++ (b'\n' ∷ [])))
    × All IsToken args
render_forward-Tokens_example = render_forward-Tokens tunnel checked

tunnel_line : render_forward tunnel ≡ some (bytes "    LocalForward 127.0.0.1:8080 db:80\n")
unfolding render_forward
tunnel_line = refl

render_kind-none_iff_example :
    ((render_kind ForwardKind.local (bytes "80") ≡ none) ↔ (length (split b':' (bytes "80")) ≤ 2))
    × ((render_kind ForwardKind.remote (bytes "80") ≡ none)
        ↔ (length (split b':' (bytes "80")) ≤ 2))
    × (render_kind ForwardKind.dynamic (bytes "80") ≢ none)
render_kind-none_iff_example = render_kind-none_iff (bytes "80")

abbrev folder : SshDir
folder = record { managed = none; config = some (bytes "Host old\n    User me\n") }

abbrev written : Text
written = elim (render (web ∷ []) (tunnel ∷ [])) [ none ↦ [] | some s ↦ s ]

rendered : render (web ∷ []) (tunnel ∷ []) ≡ some written
unfolding render
rendered = refl

apply_twice_example :
    (was_added : Bool) × (d' : SshDir) × (front : Text) × (apply
        (web ∷ [])
        (tunnel ∷ [])
        (bytes "/tmp/ssh")
        false
        folder
      ≡ some (was_added, d'))
    × (d'.managed ≡ some written)
    × (contents d'.config ≡ front ++ bytes "Host old\n    User me\n")
    × (apply (web ∷ []) (tunnel ∷ []) (bytes "/tmp/ssh") false d' ≡ some (false, d'))
unfolding has
apply_twice_example =
    apply_twice (web ∷ []) (tunnel ∷ []) (bytes "/tmp/ssh") false folder written rendered refl
