-- ===== src/Record/Payloads.antt =====
-- The typed payloads of src/record.rs, and what their derived `Serialize` and `Deserialize` write
-- and read: a field that is `None` or empty is skipped, and a field that is missing is the default.
use sshvault.Prelude.{ℕ, Option, none, some, List, [], ◌∷◌}
use sshvault.Prelude.Order.{Text, text_ord}
use sshvault.Prelude.Texts.{bytes}
use sshvault.Record.Values.{Json, Items}

pub record Host : Type 0 where
  pub alias : Text
  pub hostname : Option Text
  pub port : Option ℕ
  pub user : Option Text
  pub jump_host : Option Text
  pub identity_file : Option Text
  pub tags : List Text

pub record Snippet : Type 0 where
  pub name : Text
  pub command : Text
  pub description : Option Text
  pub tags : List Text

pub data ForwardKind : Type 0 where
  local remote dynamic : ForwardKind

pub record PortForward : Type 0 where
  pub name : Text
  pub kind : ForwardKind
  pub spec : Text
  pub host : Text

pub record KeyMeta : Type 0 where
  pub name : Text
  pub public_key : Text
  pub fingerprint : Option Text
  pub hosts : List Text

pub record PrivateKey : Type 0 where
  pub name : Text
  pub key_pem : Text
  pub public_key : Option Text

pub record ShareName : Type 0 where
  pub name : Text
  pub share_id_b64 : Text

-- A field of a payload and its value, or `none` where it is skipped.
abbrev pub Written : Type 0
Written = List (Text × Option Json)

-- `Option::is_none` skips.
abbrev pub or_skip {ℓ} : {A : Type ℓ} → (A → Json) → Option A → Option Json
or_skip write none = none
or_skip write (some a) = some (write a)

abbrev pub strings : List Text → Items
strings [] = Items.nil
strings (s ∷ ss) = Items.cons (Json.string s) (strings ss)

-- `Vec::is_empty` skips.
abbrev pub or_empty : List Text → Option Json
or_empty [] = none
or_empty (s ∷ ss) = some (Json.array (strings (s ∷ ss)))

unfoldable pub forward_kind_text : ForwardKind → Text
forward_kind_text local = bytes "local"
forward_kind_text remote = bytes "remote"
forward_kind_text dynamic = bytes "dynamic"

unfoldable pub write_host : Host → Written
write_host h =
    (bytes "alias", some (Json.string h.alias))
    ∷ (bytes "hostname", or_skip Json.string h.hostname)
    ∷ (bytes "port", or_skip Json.number h.port)
    ∷ (bytes "user", or_skip Json.string h.user)
    ∷ (bytes "jump_host", or_skip Json.string h.jump_host)
    ∷ (bytes "identity_file", or_skip Json.string h.identity_file)
    ∷ (bytes "tags", or_empty h.tags)
    ∷ []

unfoldable pub write_snippet : Snippet → Written
write_snippet s =
    (bytes "name", some (Json.string s.name))
    ∷ (bytes "command", some (Json.string s.command))
    ∷ (bytes "description", or_skip Json.string s.description)
    ∷ (bytes "tags", or_empty s.tags)
    ∷ []

unfoldable pub write_port_forward : PortForward → Written
unfolding forward_kind_text
write_port_forward f =
    (bytes "name", some (Json.string f.name))
    ∷ (bytes "kind", some (Json.string (forward_kind_text f.kind)))
    ∷ (bytes "spec", some (Json.string f.spec))
    ∷ (bytes "host", some (Json.string f.host))
    ∷ []

unfoldable pub write_key_meta : KeyMeta → Written
write_key_meta k =
    (bytes "name", some (Json.string k.name))
    ∷ (bytes "public_key", some (Json.string k.public_key))
    ∷ (bytes "fingerprint", or_skip Json.string k.fingerprint)
    ∷ (bytes "hosts", or_empty k.hosts)
    ∷ []

unfoldable pub write_private_key : PrivateKey → Written
write_private_key k =
    (bytes "name", some (Json.string k.name))
    ∷ (bytes "key_pem", some (Json.string k.key_pem))
    ∷ (bytes "public_key", or_skip Json.string k.public_key)
    ∷ []

unfoldable pub write_share_name : ShareName → Written
write_share_name s =
    (bytes "name", some (Json.string s.name))
    ∷ (bytes "share_id_b64", some (Json.string s.share_id_b64))
    ∷ []
