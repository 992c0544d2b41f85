-- ===== src/Examples/Editing.antt =====
-- A host that is added to a vault, and edited.
use sshvault.Prelude.{◌≡◌, ◌≢◌, refl, some, none, [], ◌∷◌, ◌++◌, arith}
use sshvault.Prelude.Order.{Text, text_ord, nat_ord}
use sshvault.Prelude.Texts.{bytes}
use sshvault.OrdMap.{get}
use sshvault.Record.{Clock, Kind, Record}
use sshvault.Record.Payloads.{Host}
use sshvault.Record.Fields.{collect, payload, fields_from_payload}
use sshvault.Record.Roundtrip.{form_of, host_form}
use sshvault.Vault.Fail.{done}
use sshvault.Vault.Guard.{validate_payload}
use sshvault.Vault.Frames.{frame_of}
use sshvault.Vault.Keyring.{Keyring}
use sshvault.Vault.Store.{Vault, Disk, Meta, Codec, next_clock}
use sshvault.Vault.Edit.{find, add_in, edit}
use sshvault.Vault.Edit.Added.{add_in-find}
use sshvault.Vault.Edit.Edited.{edited, edit-get}

abbrev key : Text
key = 7 ∷ []

abbrev ring : Keyring
ring = record {
  shares = record { id = 0; keys = key ∷ [] } ∷ [];
  vault_keys = [];
  vault_key = none;
  x25519_secret = [];
  ed25519_secret = [];
}

abbrev meta : Meta
meta = record {
  vault_id = 1;
  device_id = 2;
  device_name = [];
  kdf = record { salt_b64 = []; m_kib = 1; t = 1; p = 1 };
  x25519_pub_b64 = [];
  ed25519_pub_b64 = [];
  recovery_pub_b64 = [];
  lamport = 4;
  relay_url = none;
  sync_cursor = 0;
}

-- What is sealed is read by nobody here.
abbrev pub codec : Codec
codec = record {
  seal = λ k p a n. k ++ a;
  decrypt = λ k b a. none;
  to_vec = λ r. r.id ∷ [];
  from_slice = λ b. none;
}

abbrev pub host_of : Text → Host
host_of name = record {
  alias = bytes "web";
  hostname = some name;
  port = none;
  user = none;
  jump_host = none;
  identity_file = none;
  tags = [];
}

abbrev pub empty_vault : Vault
empty_vault = record { meta = meta; keyring = ring; state = [] }

abbrev pub disk : Disk
disk = record { meta = some meta; log = []; snapshot = none }

accepted :
    validate_payload ⦃form = form_of host_form⦄ Kind.host (host_of (bytes "a.b")) ≡ some (done tt)
unfolding validate_payload sshvault.Vault.Guard.size sshvault.Record.Payloads.write_host
accepted = refl

no_tombstone : Kind.host ≢ Kind.tombstone
no_tombstone h = ground arith

add_in-find_example :
    (r : Record) × (v' : Vault) × (d' : Disk) × (add_in codec ⦃form = form_of host_form⦄ [] [] 0 5
        Kind.host
        (bytes "alias")
        (bytes "web")
        (host_of (bytes "a.b"))
        0
        empty_vault
        disk
      ≡ (done 5, v', d'))
    × (find Kind.host (bytes "alias") (bytes "web") v' ≡ some r)
    × (payload ⦃form = form_of host_form⦄ r ≡ some (host_of (bytes "a.b")))
    × (r.share_id ≡ 0)
    × (d'.log ≡ [] ++ frame_of ([], codec.seal key (codec.to_vec r) [] []))
unfolding sshvault.Vault.Keyring.current_for find collect sshvault.Record.Payloads.write_host
add_in-find_example =
    add_in-find codec ⦃form = form_of host_form⦄ [] [] 0 5 Kind.host (bytes "alias") (bytes "web")
      (host_of (bytes "a.b")) 0 key empty_vault disk accepted refl refl refl no_tombstone refl tt

abbrev web : Record
web = record {
  id = 5;
  kind = Kind.host;
  fields =
      fields_from_payload ⦃form = form_of host_form⦄ (host_of (bytes "a.b"))
        (record { lamport = 3; device = 2 });
  deleted_at = none;
  clock = record { lamport = 3; device = 2 };
  device_id = 2;
  modified_at = 0;
  share_id = 0;
}

abbrev vault : Vault
vault = record { meta = meta; keyring = ring; state = (5, web) ∷ [] }

accepted_edit :
    validate_payload ⦃form = form_of host_form⦄ Kind.host (host_of (bytes "c.d")) ≡ some (done tt)
unfolding validate_payload sshvault.Vault.Guard.size sshvault.Record.Payloads.write_host
accepted_edit = refl

found : find Kind.host (bytes "alias") (bytes "web") vault ≡ some web
unfolding find fields_from_payload sshvault.Record.Payloads.write_host
    native.Mathlib.Decide.ℕ_discrete
found = refl

edit-get_example :
    (r : Record) × (v' : Vault) × (d' : Disk) × (edit codec ⦃form = form_of host_form⦄ [] [] 0
        Kind.host
        (bytes "alias")
        (bytes "web")
        (host_of (bytes "c.d"))
        vault
        disk
      ≡ (done tt, v', d'))
    × (get 5 v'.state ≡ some r)
    × ((k : Text)
        → get k r.fields
          ≡ edited
              (get k web.fields)
              (get k (collect [] ((form_of host_form).to_value (host_of (bytes "c.d")))))
              (next_clock vault disk).0)
unfolding sshvault.Vault.Keyring.current_for fields_from_payload sshvault.Record.Payloads.write_host
    next_clock
edit-get_example =
    edit-get codec ⦃form = form_of host_form⦄ [] [] 0 Kind.host (bytes "alias") (bytes "web")
      (host_of (bytes "c.d")) web key vault disk accepted_edit found refl (tt, tt) (refl, tt)
      ((refl, tt), (tt, tt)) (refl, (refl, tt))
