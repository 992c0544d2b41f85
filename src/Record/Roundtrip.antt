-- ===== src/Record/Roundtrip.antt =====
-- What `fields_from_payload` writes, `Record::payload` reads, for each payload of src/record.rs.
use sshvault.Prelude.{
  ℕ, ◌≡◌, ◌≤◌, refl, ap, sym, ◌∙◌, subst, All, Option, none, some, List, [], ◌∷◌, arith,
  if◌then◌else◌,
}
use sshvault.Prelude.Options.{or_option, or_none}
use sshvault.Prelude.Order.{Text, text_ord, text_eq}
use sshvault.OrdMap.{OrdMap, get, insert, IsSorted}
use sshvault.OrdMap.Laws.{get-insert, insert-IsSorted}
use sshvault.Record.{Clock, Record}
use sshvault.Record.Values.{Json}
use sshvault.Record.Payloads.{
  Host, Snippet, ForwardKind, PortForward, KeyMeta, PrivateKey, ShareName, Written, or_skip,
  strings, or_empty, forward_kind_text, write_host, write_snippet, write_port_forward,
  write_key_meta, write_private_key, write_share_name,
}
use sshvault.Record.Reading.{
  optional, optional_u16, read_strings, list_or_default, read_forward_kind, read_host, read_snippet,
  read_port_forward, read_key_meta, read_private_key, read_share_name,
}
use sshvault.Record.Fields.{Payload, collect, stamp, field_values, fields_from_payload, payload}

-- The last value written under the key.
abbrev pub latest : Text → Written → Option Json → Option Json
latest k [] a = a
latest k ((j, o) ∷ ws) a = latest k ws (if text_eq k j then or_option o a else a)

get-collect :
    (k : Text) (ws : Written) (m : OrdMap Text Json)
    → IsSorted m
    → get k (collect m ws) ≡ latest k ws (get k m)
unfolding collect
get-collect k [] m s = refl
get-collect k ((j, none) ∷ ws) m s = ground (arith, get-collect k ws m s)
get-collect k ((j, some v) ∷ ws) m s =
    get-collect k ws (insert j v m) (insert-IsSorted j v m s)
    ∙ ap (latest k ws) (get-insert j k v m s)

read_strings-strings : (ss : List Text) → read_strings (strings ss) ≡ some ss
unfolding read_strings
read_strings-strings [] = refl
read_strings-strings (s ∷ ss) = rw (read_strings, read_strings-strings ss) refl

list_or_default-or_empty : (ss : List Text) → list_or_default (or_empty ss) ≡ some ss
unfolding list_or_default
list_or_default-or_empty [] = refl
list_or_default-or_empty (s ∷ ss) = read_strings-strings (s ∷ ss)

optional-or_skip : (o : Option Text) → optional (or_skip Json.string o) ≡ some o
optional-or_skip none = refl
optional-or_skip (some s) = refl

abbrev pub FitsU16 : Option ℕ → Type 0
FitsU16 none = Unit
FitsU16 (some n) = n ≤ 65535

optional_u16-or_skip : (o : Option ℕ) → FitsU16 o → optional_u16 (or_skip Json.number o) ≡ some o
optional_u16-or_skip none h = refl
optional_u16-or_skip (some n) h = ground arith

pub get-written : (k : Text) (ws : Written) → get k (collect [] ws) ≡ latest k ws none
unfolding get
get-written k ws = get-collect k ws [] tt

pub read_host-write_host :
    (h : Host) → FitsU16 h.port → read_host (collect [] (write_host h)) ≡ some h
unfolding read_host write_host
read_host-write_host h p = simp (
  get-written,
  or_none,
  optional-or_skip,
  list_or_default-or_empty,
  optional_u16-or_skip h.port p,
)

pub read_snippet-write_snippet :
    (s : Snippet) → read_snippet (collect [] (write_snippet s)) ≡ some s
unfolding read_snippet write_snippet
read_snippet-write_snippet s =
    simp (get-written, or_none, optional-or_skip, list_or_default-or_empty)

read_forward_kind_lem :
    (k : ForwardKind) → read_forward_kind (some (Json.string (forward_kind_text k))) ≡ some k
unfolding read_forward_kind
read_forward_kind_lem ForwardKind.local = refl
read_forward_kind_lem ForwardKind.remote = refl
read_forward_kind_lem ForwardKind.dynamic = refl

pub read_port_forward-write_port_forward :
    (f : PortForward) → read_port_forward (collect [] (write_port_forward f)) ≡ some f
unfolding read_port_forward write_port_forward
read_port_forward-write_port_forward f = simp (get-written, read_forward_kind_lem)

pub read_key_meta-write_key_meta :
    (k : KeyMeta) → read_key_meta (collect [] (write_key_meta k)) ≡ some k
unfolding read_key_meta write_key_meta
read_key_meta-write_key_meta k =
    simp (get-written, or_none, optional-or_skip, list_or_default-or_empty)

pub read_private_key-write_private_key :
    (k : PrivateKey) → read_private_key (collect [] (write_private_key k)) ≡ some k
unfolding read_private_key write_private_key
read_private_key-write_private_key k = simp (get-written, or_none, optional-or_skip)

pub read_share_name-write_share_name :
    (s : ShareName) → read_share_name (collect [] (write_share_name s)) ≡ some s
unfolding read_share_name write_share_name
read_share_name-write_share_name s = simp (get-written)

-- The payloads of the program.
pub data Form : Type 0 where
  host_form snippet_form port_forward_form key_meta_form private_key_form share_name_form : Form

abbrev pub Carrier : Form → Type 0
Carrier host_form = Host
Carrier snippet_form = Snippet
Carrier port_forward_form = PortForward
Carrier key_meta_form = KeyMeta
Carrier private_key_form = PrivateKey
Carrier share_name_form = ShareName

abbrev pub form_of : (f : Form) → Payload (Carrier f)
form_of host_form = record {
  to_value = write_host;
  from_value = read_host;
  InRange = λ h. FitsU16 h.port;
  read-write = read_host-write_host;
}
form_of snippet_form = record {
  to_value = write_snippet;
  from_value = read_snippet;
  InRange = λ _. Unit;
  read-write = λ s _. read_snippet-write_snippet s;
}
form_of port_forward_form = record {
  to_value = write_port_forward;
  from_value = read_port_forward;
  InRange = λ _. Unit;
  read-write = λ f _. read_port_forward-write_port_forward f;
}
form_of key_meta_form = record {
  to_value = write_key_meta;
  from_value = read_key_meta;
  InRange = λ _. Unit;
  read-write = λ k _. read_key_meta-write_key_meta k;
}
form_of private_key_form = record {
  to_value = write_private_key;
  from_value = read_private_key;
  InRange = λ _. Unit;
  read-write = λ k _. read_private_key-write_private_key k;
}
form_of share_name_form = record {
  to_value = write_share_name;
  from_value = read_share_name;
  InRange = λ _. Unit;
  read-write = λ s _. read_share_name-write_share_name s;
}

pub field_values-stamp : (c : Clock) (m : OrdMap Text Json) → field_values (stamp c m) ≡ m
unfolding field_values stamp
field_values-stamp c [] = refl
field_values-stamp c ((k, v) ∷ m) = ap (λ r. (k, v) ∷ r) (field_values-stamp c m)

stamp_clocks : (c : Clock) (m : OrdMap Text Json) → All (λ e. e.1.clock ≡ c) (stamp c m)
unfolding stamp
stamp_clocks c [] = tt
stamp_clocks c ((k, v) ∷ m) = (refl, stamp_clocks c m)

-- A record whose fields are those of a payload, be it a host, a snippet, a port forward, key
-- metadata, a private key or a share name, gives that payload back, provided that a host's port is
-- a `u16`; and every field has the clock that was given.
pub payload-fields_from_payload :
    (f : Form) (p : Carrier f) (c : Clock) (r : Record)
    → (form_of f).InRange p
    → r.fields ≡ fields_from_payload ⦃form = form_of f⦄ p c
    → (payload ⦃form = form_of f⦄ r ≡ some p) × All (λ e. e.1.clock ≡ c) r.fields
unfolding payload fields_from_payload
payload-fields_from_payload f p c r h e = (
  ap (λ fs. (form_of f).from_value (field_values fs)) e
      ∙ ap (form_of f).from_value (field_values-stamp c (collect [] ((form_of f).to_value p)))
      ∙ (form_of f).read-write p h,
  subst (All (λ e. e.1.clock ≡ c)) (sym e) (stamp_clocks c (collect [] ((form_of f).to_value p))),
)
