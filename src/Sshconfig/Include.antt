-- ===== src/Sshconfig/Include.antt =====
-- The Include line is added once, in front of what the user wrote.
use mathlib.Core.List.{append_assoc}
use sshvault.Prelude.{
  ℕ, ◌≡◌, refl, ap, sym, subst, ◌∙◌, inl, inr, Bool, true, false, Option, some, List, [], ◌∷◌, ◌++◌,
  arith, Bool-cases, ◌==◌, if◌then◌else◌,
}
use sshvault.Prelude.Order.{Text}
use sshvault.Prelude.Texts.{
  bytes, starts_with, contains, has, split, lines, line_pieces, strip_return, trim, trim_end,
  lowercase,
}
use sshvault.Prelude.Spaces.{split_cons, trim_end-append, trim_start-plain}
use sshvault.Record.Payloads.{Host, PortForward}
use sshvault.Sshconfig.{
  SshDir, managed_file, mentions, any_mentions, contents, ensure_include, join, include_target,
  render, apply,
}

starts_with_self : (p : Text) → starts_with p p ≡ true
unfolding starts_with
starts_with_self [] = refl
starts_with_self (c ∷ p) = ground (arith, starts_with_self p)

contains-append : (p a : Text) → contains p (a ++ p) ≡ true
unfolding contains
contains-append [] [] = refl
contains-append (c ∷ p) [] = rw (starts_with_self (c ∷ p)) refl
contains-append p (c ∷ a) = elim (Bool-cases (starts_with p (c ∷ (a ++ p)))) [
  | inl e ↦ rw e refl
  | inr e ↦ rw e (contains-append p a)
]

strip_return-append :
    (a : Text) (c : ℕ) → (c == 13) ≡ false → strip_return (a ++ (c ∷ [])) ≡ a ++ (c ∷ [])
unfolding strip_return
strip_return-append [] c h = rw h refl
strip_return-append (b ∷ []) c h = rw h refl
strip_return-append (b ∷ d ∷ a) c h = ap (λ r. b ∷ r) (strip_return-append (d ∷ a) c h)

-- A text up to its first newline is its first piece.
pub split-newline : (a b : Text) → has 10 a ≡ false → split 10 (a ++ (10 ∷ b)) ≡ a ∷ split 10 b
unfolding split has
split-newline [] b h = refl
split-newline (c ∷ a) b h = rw (split, split-newline a b (ground arith)) (ground arith)

first_line :
    (a b : Text) (c : ℕ)
    → has 10 (a ++ (c ∷ [])) ≡ false
    → (c == 13) ≡ false
    → (ls : List Text) × (lines ((a ++ (c ∷ [])) ++ (10 ∷ b)) ≡ (a ++ (c ∷ [])) ∷ ls)
unfolding lines line_pieces
first_line a b c h k =
    let (p, ps, e) = split_cons 10 b in
    (
      line_pieces (p ∷ ps),
      ap line_pieces (split-newline (a ++ (c ∷ [])) b h ∙ ap (λ r. (a ++ (c ∷ [])) ∷ r) e)
          ∙ ap (λ l. l ∷ line_pieces (p ∷ ps)) (strip_return-append a c k),
    )

pub has-append : (c : ℕ) (a b : Text) → has c a ≡ false → has c b ≡ false → has c (a ++ b) ≡ false
unfolding has
has-append c [] b h k = k
has-append c (d ∷ a) b h k = ground (arith, has-append c a b)

-- The line that is added.
abbrev include_line : Text → Text
include_line dir = bytes "Include " ++ dir ++ managed_file

-- All of it but the last character.
abbrev line_front : Text → Text
line_front dir = bytes "Include " ++ dir ++ bytes "sshvault.con"

front_last : (dir : Text) → line_front dir ++ (b'f' ∷ []) ≡ include_line dir
front_last dir = append_assoc (bytes "Include " ++ dir) (bytes "sshvault.con") (b'f' ∷ [])

trim-include_line : (dir : Text) → trim (include_line dir) ≡ include_line dir
unfolding trim
trim-include_line dir =
    ap trim_end (trim_start-plain b'I' (bytes "nclude " ++ dir ++ managed_file) refl)
    ∙ ap trim_end (sym (front_last dir))
    ∙ trim_end-append (line_front dir) b'f' refl
    ∙ front_last dir

mentions_of :
    (line l : Text)
    → trim line ≡ l
    → starts_with (bytes "include") (lowercase l) ≡ true
    → contains managed_file l ≡ true
    → mentions line ≡ true
unfolding mentions
mentions_of line l e f g = rw (mentions, e, f, g) refl

is_include : (dir : Text) → starts_with (bytes "include") (lowercase (include_line dir)) ≡ true
unfolding starts_with lowercase
is_include dir = refl

mentions-include_line : (dir : Text) → mentions (include_line dir) ≡ true
mentions-include_line dir =
    mentions_of (include_line dir) (include_line dir) (trim-include_line dir) (is_include dir)
      (contains-append managed_file (bytes "Include " ++ dir))

no_newline : (dir : Text) → has 10 dir ≡ false → has 10 (include_line dir) ≡ false
unfolding has
no_newline dir h =
    has-append 10 (bytes "Include " ++ dir) managed_file
      (has-append 10 (bytes "Include ") dir refl h) refl

-- A config that starts with the line is left alone.
mentioned :
    (dir rest : Text)
    → has 10 dir ≡ false
    → any_mentions (lines (include_line dir ++ (10 ∷ rest))) ≡ true
unfolding any_mentions
mentioned dir rest h =
    let free = subst (λ l. has 10 l ≡ false) (sym (front_last dir)) (no_newline dir h) in
    let (ls, e) =
      subst (λ l. (ls : List Text) × (lines (l ++ (10 ∷ rest)) ≡ l ∷ ls)) (front_last dir)
        (first_line (line_front dir) rest b'f' free refl) in
    ap any_mentions e ∙ rw (any_mentions, mentions-include_line dir) refl

line_text :
    (dir rest : Text)
    → bytes "Include " ++ (dir ++ managed_file) ++ (10 ∷ 10 ∷ []) ++ rest
      ≡ include_line dir ++ (10 ∷ 10 ∷ rest)
line_text dir rest = simp (append_assoc)

-- What a run leaves of the config: a further run changes nothing, and it ends with what was there.
record Wired (config : Option Text) (target : Text) (result : Bool × Option Text) : Type 0 where
  again : ensure_include result.1 target ≡ (false, result.1)
  front : Text
  kept : contents result.1 ≡ front ++ contents config

left_alone :
    (config : Option Text) (target : Text)
    → any_mentions (lines (contents config)) ≡ true
    → ensure_include config target ≡ (false, config)
unfolding ensure_include
left_alone config target e = rw (ensure_include, e) refl

written :
    (config : Option Text) (target : Text)
    → any_mentions (lines (contents config)) ≡ false
    → ensure_include config target
      ≡ (true, some (bytes "Include " ++ target ++ (10 ∷ 10 ∷ []) ++ contents config))
unfolding ensure_include
written config target e = rw (ensure_include, e) refl

ensure_include-Wired :
    (config : Option Text) (dir : Text)
    → has 10 dir ≡ false
    → Wired config (dir ++ managed_file) (ensure_include config (dir ++ managed_file))
ensure_include-Wired config dir h =
    let target = dir ++ managed_file in
    elim (Bool-cases (any_mentions (lines (contents config)))) [
      | inl e ↦
          subst (Wired config target) (sym (left_alone config target e))
            (record { again = left_alone config target e; front = []; kept = refl })
      | inr e ↦
          let new = bytes "Include " ++ target ++ (10 ∷ 10 ∷ []) ++ contents config in
          subst (Wired config target) (sym (written config target e)) (record {
            again = left_alone (some new) target (
                ap (λ s. any_mentions (lines s)) (line_text dir (contents config))
                ∙ mentioned dir (10 ∷ contents config) h);
            front = bytes "Include " ++ target ++ (10 ∷ 10 ∷ []);
            kept = refl;
          })
    ]

-- The folder's path as it stands in front of a name in it.
abbrev front_of : Text → Text
front_of [] = []
front_of (c ∷ []) = if c == b'/' then c ∷ [] else c ∷ b'/' ∷ []
front_of (c ∷ d ∷ rest) = c ∷ front_of (d ∷ rest)

join-front_of : (dir name : Text) → join dir name ≡ front_of dir ++ name
unfolding join
join-front_of [] name = refl
join-front_of (c ∷ []) name = elim (Bool-cases (c == b'/')) [
  | inl e ↦ rw (join, e) refl
  | inr e ↦ rw (join, e) refl
]
join-front_of (c ∷ d ∷ rest) name = ap (λ t. c ∷ t) (join-front_of (d ∷ rest) name)

front_of_line : (dir : Text) → has 10 dir ≡ false → has 10 (front_of dir) ≡ false
unfolding has
front_of_line [] h = refl
front_of_line (c ∷ []) h = ground arith
front_of_line (c ∷ d ∷ rest) h = ground (arith, front_of_line (d ∷ rest))

-- What stands in front of the name in the target.
abbrev folder : Text → Bool → Text
folder ssh_dir in_home = if in_home then bytes "~/.ssh/" else front_of ssh_dir

target_of :
    (ssh_dir : Text) (in_home : Bool)
    → include_target ssh_dir in_home ≡ folder ssh_dir in_home ++ managed_file
unfolding include_target
target_of ssh_dir true = refl
target_of ssh_dir false = join-front_of ssh_dir managed_file

folder_line :
    (ssh_dir : Text) (in_home : Bool)
    → has 10 ssh_dir ≡ false
    → has 10 (folder ssh_dir in_home) ≡ false
unfolding has
folder_line ssh_dir true h = refl
folder_line ssh_dir false h = front_of_line ssh_dir h

-- Applying what renders writes the managed file, keeps every byte of the user's config behind what
-- it puts in front, if anything, and leaves nothing to do for a second run, which adds no line and
-- changes no file; if the folder's path has no newline.
pub apply_twice :
    (hosts : List Host) (forwards : List PortForward) (ssh_dir : Text) (in_home : Bool) (d : SshDir)
    (content : Text)
    → render hosts forwards ≡ some content
    → has 10 ssh_dir ≡ false
    → (was_added : Bool) × (d' : SshDir) × (front : Text) × (apply hosts forwards ssh_dir in_home d
        ≡ some (was_added, d'))
      × (d'.managed ≡ some content)
      × (contents d'.config ≡ front ++ contents d.config)
      × (apply hosts forwards ssh_dir in_home d' ≡ some (false, d'))
unfolding apply
apply_twice hosts forwards ssh_dir in_home d content e h =
    let target = include_target ssh_dir in_home in
    let w =
      subst (λ t. Wired d.config t (ensure_include d.config t)) (sym (target_of ssh_dir in_home))
        (ensure_include-Wired d.config (folder ssh_dir in_home) (folder_line ssh_dir in_home h)) in
    let (was_added, config) = ensure_include d.config target in
    (
      was_added,
      record { managed = some content; config = config },
      w.front,
      rw (apply, e) refl,
      refl,
      w.kept,
      rw (apply, e, w.again) refl,
    )
