-- ===== src/Record/Reading.antt =====
-- The derived `Deserialize` of the payloads of src/record.rs: `none` is an error, an unknown field
-- is passed over.
use sshvault.Prelude.Options.{◌>>=◌}
use sshvault.Prelude.{ℕ, Option, none, some, List, [], ◌∷◌, if◌then◌else◌, leb}
use sshvault.Prelude.Order.{Text, text_ord, text_eq}
use sshvault.Prelude.Texts.{bytes}
use sshvault.OrdMap.{OrdMap, get}
use sshvault.Record.Values.{Json, Items}
use sshvault.Record.Payloads.{
  Host, Snippet, ForwardKind, PortForward, KeyMeta, PrivateKey, ShareName, forward_kind_text,
}

-- A field that has to be there.
abbrev pub required : Option Json → Option Text
required (some (Json.string s)) = some s
required _ = none

abbrev pub optional : Option Json → Option (Option Text)
optional none = some none
optional (some Json.null) = some none
optional (some (Json.string s)) = some (some s)
optional (some _) = none

-- `Option<u16>`
abbrev pub optional_u16 : Option Json → Option (Option ℕ)
optional_u16 none = some none
optional_u16 (some Json.null) = some none
optional_u16 (some (Json.number n)) = if leb n 65535 then some (some n) else none
optional_u16 (some _) = none

unfoldable pub read_strings : Items → Option (List Text)
read_strings Items.nil = some []
read_strings (Items.cons (Json.string s) rest) = do ss ← read_strings rest; some (s ∷ ss)
read_strings (Items.cons _ rest) = none

-- `#[serde(default)] Vec<String>`
unfoldable pub list_or_default : Option Json → Option (List Text)
unfolding read_strings
list_or_default none = some []
list_or_default (some (Json.array items)) = read_strings items
list_or_default (some _) = none

-- The names of `#[serde(rename_all = "lowercase")]`
unfoldable pub read_forward_kind : Option Json → Option ForwardKind
unfolding forward_kind_text
read_forward_kind (some (Json.string s)) =
    if text_eq s (forward_kind_text ForwardKind.local)
    then some ForwardKind.local
    else if text_eq s (forward_kind_text ForwardKind.remote)
    then some ForwardKind.remote
    else if text_eq s (forward_kind_text ForwardKind.dynamic)
    then some ForwardKind.dynamic
    else none
read_forward_kind _ = none

module _ (m : OrdMap Text Json) where
  unfoldable pub read_host : Option Host
  unfolding get list_or_default
  read_host = do
    alias ← required (get (bytes "alias") m)
    hostname ← optional (get (bytes "hostname") m)
    port ← optional_u16 (get (bytes "port") m)
    user ← optional (get (bytes "user") m)
    jump_host ← optional (get (bytes "jump_host") m)
    identity_file ← optional (get (bytes "identity_file") m)
    tags ← list_or_default (get (bytes "tags") m)
    some (record {
      alias = alias;
      hostname = hostname;
      port = port;
      user = user;
      jump_host = jump_host;
      identity_file = identity_file;
      tags = tags;
    })

  unfoldable pub read_snippet : Option Snippet
  unfolding get list_or_default
  read_snippet = do
    name ← required (get (bytes "name") m)
    command ← required (get (bytes "command") m)
    description ← optional (get (bytes "description") m)
    tags ← list_or_default (get (bytes "tags") m)
    some (record { name = name; command = command; description = description; tags = tags })

  unfoldable pub read_port_forward : Option PortForward
  unfolding get read_forward_kind
  read_port_forward = do
    name ← required (get (bytes "name") m)
    kind ← read_forward_kind (get (bytes "kind") m)
    spec ← required (get (bytes "spec") m)
    host ← required (get (bytes "host") m)
    some (record { name = name; kind = kind; spec = spec; host = host })

  unfoldable pub read_key_meta : Option KeyMeta
  unfolding get list_or_default
  read_key_meta = do
    name ← required (get (bytes "name") m)
    public_key ← required (get (bytes "public_key") m)
    fingerprint ← optional (get (bytes "fingerprint") m)
    hosts ← list_or_default (get (bytes "hosts") m)
    some (record { name = name; public_key = public_key; fingerprint = fingerprint; hosts = hosts })

  unfoldable pub read_private_key : Option PrivateKey
  unfolding get
  read_private_key = do
    name ← required (get (bytes "name") m)
    key_pem ← required (get (bytes "key_pem") m)
    public_key ← optional (get (bytes "public_key") m)
    some (record { name = name; key_pem = key_pem; public_key = public_key })

  unfoldable pub read_share_name : Option ShareName
  unfolding get
  read_share_name = do
    name ← required (get (bytes "name") m)
    share_id_b64 ← required (get (bytes "share_id_b64") m)
    some (record { name = name; share_id_b64 = share_id_b64 })
