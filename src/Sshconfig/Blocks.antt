-- ===== src/Sshconfig/Blocks.antt =====
-- A host that the vault let in is rendered as the lines of its block, and no others.
use mathlib.Core.List.{append_assoc}
use sshvault.Prelude.{
  ◌≡◌, refl, ap, sym, ◌∙◌, subst, inl, inr, false, ◌||◌, Option, none, some, List, [], ◌∷◌, ◌++◌,
  All, All-append, arith, Bool-cases,
}
use sshvault.Prelude.Options.{or_option}
use sshvault.Prelude.Order.{Text, text_ord, cmp_text, Ordering-cases}
use sshvault.Prelude.Texts.{bytes, is_empty, has, split}
use sshvault.Prelude.Digits.{digits, IsDigit, digits-IsDigit}
use sshvault.OrdMap.{OrdMap, get}
use sshvault.Record.{Kind}
use sshvault.Record.Values.{Json}
use sshvault.Record.Payloads.{Host, write_host, or_skip}
use sshvault.Record.Fields.{collect}
use sshvault.Record.Roundtrip.{form_of, host_form, latest, get-written}
use sshvault.Vault.Fail.{done}
use sshvault.Vault.Guard.{members_of, validate_payload}
use sshvault.Vault.Guard.Soundness.{AllStrings, AllMembers, IsAllowed, validate_payload_iff}
use sshvault.Sshconfig.{quote, show_u16, directive, optional_directive, render_block}
use sshvault.Sshconfig.Include.{split-newline, has-append}

-- Each line and its newline.
abbrev unlines : List Text → Text
unlines [] = []
unlines (l ∷ ls) = l ++ (10 ∷ unlines ls)

unlines-append : (a b : List Text) → unlines (a ++ b) ≡ unlines a ++ unlines b
unlines-append [] b = refl
unlines-append (l ∷ a) b =
    ap (λ r. l ++ (10 ∷ r)) (unlines-append a b) ∙ sym (append_assoc l (10 ∷ unlines a) (unlines b))

split-unlines :
    (ls : List Text) → All (λ l. has 10 l ≡ false) ls → split 10 (unlines ls) ≡ ls ++ ([] ∷ [])
unfolding split
split-unlines [] h = refl
split-unlines (l ∷ ls) h = split-newline l (unlines ls) h.0 ∙ ap (λ r. l ∷ r) (split-unlines ls h.1)

abbrev pub optional_line {ℓ} : {A : Type ℓ} → Text → (A → Text) → Option A → List Text
optional_line keyword show none = []
optional_line keyword show (some v) = (keyword ++ show v) ∷ []

-- What the block of a host should be, line by line.
abbrev pub block_lines : Host → List Text
block_lines h =
    ((bytes "Host " ++ quote h.alias) ∷ [])
    ++ optional_line (bytes "    HostName ") quote h.hostname
    ++ optional_line (bytes "    Port ") show_u16 h.port
    ++ optional_line (bytes "    User ") quote h.user
    ++ optional_line (bytes "    ProxyJump ") quote h.jump_host
    ++ optional_line (bytes "    IdentityFile ") quote h.identity_file

unlines-optional_line {ℓ} :
    {A : Type ℓ} (keyword : Text) (show : A → Text) (o : Option A)
    → optional_directive keyword show o ≡ unlines (optional_line keyword show o)
unfolding optional_directive directive
unlines-optional_line keyword show none = refl
unlines-optional_line keyword show (some v) = refl

unlines-joined :
    (x a b c d e : List Text)
    → unlines (x ++ a ++ b ++ c ++ d ++ e)
      ≡ unlines x ++ unlines a ++ unlines b ++ unlines c ++ unlines d ++ unlines e
unlines-joined x a b c d e =
    unlines-append (x ++ a ++ b ++ c ++ d) e
    ∙ ap (λ r. r ++ unlines e)
        (unlines-append (x ++ a ++ b ++ c) d
          ∙ ap (λ r. r ++ unlines d)
              (unlines-append (x ++ a ++ b) c
                ∙ ap (λ r. r ++ unlines c)
                    (unlines-append (x ++ a) b ∙ ap (λ r. r ++ unlines b) (unlines-append x a))))

render_block-lines : (h : Host) → render_block h ≡ 10 ∷ unlines (block_lines h)
unfolding render_block directive
render_block-lines h =
    rw
      (
        unlines-optional_line (bytes "    HostName ") quote h.hostname,
        unlines-optional_line (bytes "    Port ") show_u16 h.port,
        unlines-optional_line (bytes "    User ") quote h.user,
        unlines-optional_line (bytes "    ProxyJump ") quote h.jump_host,
        unlines-optional_line (bytes "    IdentityFile ") quote h.identity_file,
      )
      (ap (λ r. 10 ∷ r)
        (sym (
          unlines-joined ((bytes "Host " ++ quote h.alias) ∷ [])
            (optional_line (bytes "    HostName ") quote h.hostname)
            (optional_line (bytes "    Port ") show_u16 h.port)
            (optional_line (bytes "    User ") quote h.user)
            (optional_line (bytes "    ProxyJump ") quote h.jump_host)
            (optional_line (bytes "    IdentityFile ") quote h.identity_file))))

AllMembers-get :
    (P : Text → Type 0) (k s : Text) (m : OrdMap Text Json)
    → AllMembers P (members_of m)
    → get k m ≡ some (Json.string s)
    → P s
unfolding AllMembers members_of get
AllMembers-get P k s [] a h = absurd (ground arith)
AllMembers-get P k s ((j, v) ∷ m) a h = elim (Ordering-cases (cmp_text k j)) [
  | inl e ↦ absurd (ground arith)
  | inr (inl e) ↦ AllMembers-get P k s m a.1 (ground arith)
  | inr (inr e) ↦ let same : v ≡ Json.string s = ground arith in subst (AllStrings P) same a.0
]

quoted : (v : Text) → has 10 v ≡ false → has 10 (34 ∷ v) ≡ false
unfolding has
quoted v h = h

quote_no_newline : (v : Text) → has 10 v ≡ false → has 10 (quote v) ≡ false
unfolding quote has
quote_no_newline v h = elim (Bool-cases (has 32 v || has 9 v || is_empty v)) [
  | inl e ↦ rw (quote, e) (has-append 10 (34 ∷ v) (34 ∷ []) (quoted v h) refl)
  | inr e ↦ rw (quote, e) h
]

digits_have_no_newline : (s : Text) → All IsDigit s → has 10 s ≡ false
unfolding IsDigit has
digits_have_no_newline [] h = refl
digits_have_no_newline (c ∷ s) h = ground (arith, digits_have_no_newline s h.1)

optional_line_no_newline {ℓ} :
    {A : Type ℓ} (keyword : Text) (show : A → Text) (o : Option A)
    → has 10 keyword ≡ false
    → ((v : A) → o ≡ some v → has 10 (show v) ≡ false)
    → All (λ l. has 10 l ≡ false) (optional_line keyword show o)
optional_line_no_newline keyword show none k h = tt
optional_line_no_newline keyword show (some v) k h =
    (has-append 10 keyword (show v) k (h v refl), tt)

some_injective {ℓ} : {A : Type ℓ} {a b : A} → some a ≡ some b → a ≡ b
some_injective e = cc

All-joined :
    (x a b c d e : List Text)
    → All (λ l. has 10 l ≡ false) x
    → All (λ l. has 10 l ≡ false) a
    → All (λ l. has 10 l ≡ false) b
    → All (λ l. has 10 l ≡ false) c
    → All (λ l. has 10 l ≡ false) d
    → All (λ l. has 10 l ≡ false) e
    → All (λ l. has 10 l ≡ false) (x ++ a ++ b ++ c ++ d ++ e)
All-joined x a b c d e hx ha hb hc hd he =
    let P : Text → Type 0 = λ l. has 10 l ≡ false in
    All-append P (x ++ a ++ b ++ c ++ d) e
      (All-append P (x ++ a ++ b ++ c) d
        (All-append P (x ++ a ++ b) c (All-append P (x ++ a) b (All-append P x a hx ha) hb) hc) hd)
      he

-- What the vault's check says of a string that is written under a key.
allowed_at :
    (h : Host) (k s : Text)
    → validate_payload ⦃form = form_of host_form⦄ Kind.host h ≡ some (done tt)
    → latest k (write_host h) none ≡ some (Json.string s)
    → has 10 s ≡ false
allowed_at h k s ok e =
    let (result, returned, (into, from)) =
      validate_payload_iff ⦃form = form_of host_form⦄ Kind.host h in
    elim (into (some_injective (sym returned ∙ ok))) [
      | inl p ↦ absurd (ground arith)
      | inr a ↦
          (AllMembers-get (IsAllowed Kind.host) k s (collect [] (write_host h)) a
            (get-written k (write_host h) ∙ e)).no_newline
    ]

optional_at :
    (h : Host) (k keyword : Text) (o : Option Text)
    → validate_payload ⦃form = form_of host_form⦄ Kind.host h ≡ some (done tt)
    → has 10 keyword ≡ false
    → latest k (write_host h) none ≡ or_option (or_skip Json.string o) none
    → All (λ l. has 10 l ≡ false) (optional_line keyword quote o)
optional_at h k keyword o ok free e = optional_line_no_newline keyword quote o free (λ v i.
    quote_no_newline v (
      allowed_at h k v ok (e ∙ ap (λ (p : Option Text). or_option (or_skip Json.string p) none) i)))

-- A host that the vault's check accepts is rendered as an empty line and one line for its alias and
-- for each of its hostname, port, user, jump host and identity file that is there: no value of it
-- ends a line or starts another.
pub split-render_block :
    (h : Host)
    → validate_payload ⦃form = form_of host_form⦄ Kind.host h ≡ some (done tt)
    → split 10 (render_block h) ≡ [] ∷ block_lines h ++ ([] ∷ [])
unfolding write_host has
split-render_block h ok =
    ap (split 10) (render_block-lines h)
    ∙ split-unlines ([] ∷ block_lines h) (
      refl,
      All-joined ((bytes "Host " ++ quote h.alias) ∷ [])
          (optional_line (bytes "    HostName ") quote h.hostname)
          (optional_line (bytes "    Port ") show_u16 h.port)
          (optional_line (bytes "    User ") quote h.user)
          (optional_line (bytes "    ProxyJump ") quote h.jump_host)
          (optional_line (bytes "    IdentityFile ") quote h.identity_file)
          (quote_no_newline h.alias (allowed_at h (bytes "alias") h.alias ok refl), tt)
          (optional_at h (bytes "hostname") (bytes "    HostName ") h.hostname ok refl refl)
          (optional_line_no_newline (bytes "    Port ") show_u16 h.port refl
            (λ n _. digits_have_no_newline (digits 5 n) (digits-IsDigit 5 n)))
          (optional_at h (bytes "user") (bytes "    User ") h.user ok refl refl)
          (optional_at h (bytes "jump_host") (bytes "    ProxyJump ") h.jump_host ok refl refl)
          (optional_at h (bytes "identity_file") (bytes "    IdentityFile ") h.identity_file ok refl
            refl),
    )
