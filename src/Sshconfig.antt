-- ===== src/Sshconfig.antt =====
-- src/sshconfig.rs: the managed include file, and the line that wires it into the user's config.
pub mod Forwards
pub mod Blocks
pub mod Include
use sshvault.Prelude.{
  ℕ, zero, suc, ◌+◌, ◌-◌, ◌*◌, ◌/◌, ◌%◌, Bool, true, false, ◌&&◌, ◌||◌, not, Option, none, some,
  List, [], ◌∷◌, ◌++◌, leb, ltb, ◌==◌, if◌then◌else◌,
}
use sshvault.Prelude.Options.{◌>>=◌}
use sshvault.Prelude.Order.{Text, text_eq, cmp_text, is_eq}
use sshvault.Prelude.Texts.{
  bytes, is_empty, starts_with, contains, has, split, has_space, trim, lowercase, lines,
}
use sshvault.Prelude.Digits.{digits, parse_uint}
use sshvault.Record.{is_lt}
use sshvault.Record.Payloads.{Host, ForwardKind, PortForward}

-- The texts of the errors are left out; a file is taken to be read and written without failure.
pub data ApplyError : Type 0 where
  bad_forward_spec : ApplyError

pub data Validated : Type 0 where
  valid : Validated
  invalid : ApplyError → Validated

abbrev is_some {ℓ} : {A : Type ℓ} → Option A → Bool
is_some none = false
is_some (some a) = true

-- `s.parse::<u16>().is_ok()`
unfoldable pub port_ok : Text → Bool
unfolding parse_uint
port_ok s = is_some (parse_uint 65535 s)

unfoldable pub addr_ok : Text → Bool
unfolding has_space
addr_ok s = not (is_empty s) && not (has_space s)

verdict : Bool → Validated
verdict true = valid
verdict false = invalid bad_forward_spec

unfoldable pub check_dynamic : List Text → Validated
unfolding port_ok addr_ok verdict
check_dynamic (p ∷ []) = verdict (port_ok p)
check_dynamic (bind ∷ p ∷ []) = verdict (addr_ok bind && port_ok p)
check_dynamic _ = invalid bad_forward_spec

unfoldable pub check_static : List Text → Validated
unfolding port_ok addr_ok verdict
check_static (lp ∷ host ∷ dp ∷ []) = verdict (port_ok lp && addr_ok host && port_ok dp)
check_static (bind ∷ lp ∷ host ∷ dp ∷ []) =
    verdict (addr_ok bind && port_ok lp && addr_ok host && port_ok dp)
check_static _ = invalid bad_forward_spec

unfoldable pub validate_forward_spec : ForwardKind → Text → Validated
unfolding check_dynamic check_static split
validate_forward_spec ForwardKind.dynamic spec = check_dynamic (split b':' spec)
validate_forward_spec ForwardKind.local spec = check_static (split b':' spec)
validate_forward_spec ForwardKind.remote spec = check_static (split b':' spec)

unfoldable pub quote : Text → Text
unfolding has
quote token =
    if has b' ' token || has b'\t' token || is_empty token
    then b'"' ∷ token ++ (b'"' ∷ [])
    else token

-- `    {keyword} {listen} {dest}\n`
unfoldable pub forward_line : Text → Text → Text → Text
forward_line keyword listen dest =
    bytes "    " ++ keyword ++ (b' ' ∷ listen) ++ (b' ' ∷ dest) ++ (b'\n' ∷ [])

-- `a:b`
abbrev pub colon : Text → Text → Text
colon a b = a ++ (b':' ∷ b)

-- Too few parts are an index out of bounds: `none` is the panic.
unfoldable pub static_forward : Text → List Text → Option Text
unfolding forward_line
static_forward keyword (a ∷ b ∷ c ∷ d ∷ []) = some (forward_line keyword (colon a b) (colon c d))
static_forward keyword (a ∷ b ∷ c ∷ rest) = some (forward_line keyword a (colon b c))
static_forward keyword _ = none

unfoldable pub render_kind : ForwardKind → Text → Option Text
unfolding static_forward split
render_kind ForwardKind.dynamic spec = some (bytes "    DynamicForward " ++ spec ++ (b'\n' ∷ []))
render_kind ForwardKind.local spec = static_forward (bytes "LocalForward") (split b':' spec)
render_kind ForwardKind.remote spec = static_forward (bytes "RemoteForward") (split b':' spec)

unfoldable pub render_forward : PortForward → Option Text
unfolding render_kind
render_forward f = render_kind f.kind f.spec

-- A stable sort by a text.
module _ {ℓ} {A : Type ℓ} (key : A → Text) where
  unfoldable pub insert_sorted : A → List A → List A
  insert_sorted x [] = x ∷ []
  insert_sorted x (y ∷ ys) =
      let rest = insert_sorted x ys in
      if is_lt (cmp_text (key y) (key x)) then y ∷ rest else x ∷ y ∷ ys

  unfoldable pub sort_by : List A → List A
  unfolding insert_sorted
  sort_by [] = []
  sort_by (x ∷ xs) = insert_sorted x (sort_by xs)

-- `{p}` of a `u16`, which has at most five digits
abbrev pub show_u16 : ℕ → Text
show_u16 = digits 5

unfoldable pub directive : Text → Text → Text
directive keyword value = keyword ++ value ++ (b'\n' ∷ [])

-- `if let Some(v) = …`
unfoldable pub optional_directive {ℓ} : {A : Type ℓ} → Text → (A → Text) → Option A → Text
unfolding directive
optional_directive keyword show none = []
optional_directive keyword show (some v) = directive keyword (show v)

unfoldable pub forwards_of : Text → List PortForward → List PortForward
forwards_of alias [] = []
forwards_of alias (f ∷ fs) =
    let rest = forwards_of alias fs in if text_eq f.host alias then f ∷ rest else rest

unfoldable pub render_forwards : List PortForward → Option Text
unfolding render_forward
render_forwards [] = some []
render_forwards (f ∷ fs) = do
  line ← render_forward f
  rest ← render_forwards fs
  some (line ++ rest)

-- The block of a host, without its forwards.
unfoldable pub render_block : Host → Text
unfolding directive optional_directive quote digits
render_block h =
    b'\n' ∷ directive (bytes "Host ") (quote h.alias)
    ++ optional_directive (bytes "    HostName ") quote h.hostname
    ++ optional_directive (bytes "    Port ") show_u16 h.port
    ++ optional_directive (bytes "    User ") quote h.user
    ++ optional_directive (bytes "    ProxyJump ") quote h.jump_host
    ++ optional_directive (bytes "    IdentityFile ") quote h.identity_file

unfoldable pub render_hosts : List PortForward → List Host → Option Text
unfolding render_block render_forwards forwards_of sort_by
render_hosts forwards [] = some []
render_hosts forwards (h ∷ hs) = do
  lines ← render_forwards (sort_by (λ (f : PortForward). f.name) (forwards_of h.alias forwards))
  rest ← render_hosts forwards hs
  some (render_block h ++ lines ++ rest)

abbrev pub banner : Text
banner =
    bytes "# Managed by sshvault "
    ++ (226 ∷ 128 ∷ 148 ∷ [])
    ++ bytes " DO NOT EDIT.\n"
    ++ bytes "# Regenerate with `sshvault apply`. Your own config lives in ~/.ssh/config.\n"

unfoldable pub render : List Host → List PortForward → Option Text
unfolding render_hosts sort_by
render hosts forwards = do
  blocks ← render_hosts forwards (sort_by (λ (h : Host). h.alias) hosts)
  some (banner ++ blocks)

abbrev pub managed_file : Text
managed_file = bytes "sshvault.conf"

-- An Include line that mentions the managed file. Bytes that are no UTF-8 are replaced by a
-- character that is neither ASCII nor white space, which the test does not see.
unfoldable pub mentions : Text → Bool
unfolding trim starts_with lowercase contains
mentions line =
    let l = trim line in starts_with (bytes "include") (lowercase l) && contains managed_file l

unfoldable pub any_mentions : List Text → Bool
unfolding mentions
any_mentions [] = false
any_mentions (l ∷ ls) = mentions l || any_mentions ls

-- What is in a file, nothing if it is not there.
abbrev pub contents : Option Text → Text
contents none = []
contents (some s) = s

-- Whether the line was added, and the user's config then.
unfoldable pub ensure_include : Option Text → Text → Bool × Option Text
unfolding any_mentions lines
ensure_include config target =
    let existing = contents config in
    if any_mentions (lines existing)
    then (false, config)
    else (true, some (bytes "Include " ++ target ++ (b'\n' ∷ b'\n' ∷ []) ++ existing))

-- The two files of the folder.
pub record SshDir : Type 0 where
  pub managed : Option Text
  pub config : Option Text

-- The folder's path, and whether it is `.ssh` in the home folder.
-- `Path::join` with a relative name
unfoldable pub join : Text → Text → Text
join [] name = name
join (c ∷ []) name = if c == b'/' then c ∷ name else c ∷ b'/' ∷ name
join (c ∷ d ∷ rest) name = c ∷ join (d ∷ rest) name

unfoldable pub include_target : Text → Bool → Text
unfolding join
include_target ssh_dir in_home =
    if in_home then bytes "~/.ssh/" ++ managed_file else join ssh_dir managed_file

-- `Applied::include_added`, and the files; `none` is the panic of `render`.
unfoldable pub apply : List Host → List PortForward → Text → Bool → SshDir → Option (Bool × SshDir)
unfolding render ensure_include include_target
apply hosts forwards ssh_dir in_home d = do
  content ← render hosts forwards
  let (added, config) = ensure_include d.config (include_target ssh_dir in_home)
  some (added, record { managed = some content; config = config })
