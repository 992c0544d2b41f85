-- ===== src/Vault/Guard/Soundness.antt =====
-- The loop of `validate_payload` ends, and accepts what the guards allow, at any depth.
use sshvault.Prelude.{
  ℕ, zero, suc, ◌+◌, ◌≤◌, ◌≡◌, ◌≢◌, ◌↔◌, ◌⊎◌, refl, sym, ◌∙◌, inl, inr, true, false, some, List, [],
  ◌∷◌, All, arith, Bool-cases,
}
use sshvault.Prelude.Order.{Text}
use sshvault.Prelude.Texts.{bytes, contains, has}
use sshvault.Record.{Kind, private_key, snippet, kind_eq}
use sshvault.Record.Values.{Json, Items, Members}
use sshvault.Record.Fields.{Payload, collect}
use sshvault.Vault.Fail.{Result, done, fail, Result-cases}
use sshvault.Vault.Guard.{
  members_of, check_string, extend_items, extend_members, check_stack, size, items_size,
  members_size, validate_payload,
}

-- What every string of a payload of the kind has to be.
pub record IsAllowed (kind : Kind) (s : Text) : Type 0 where
  pub no_key : contains (bytes "PRIVATE KEY") s ≡ false
  pub no_newline : has b'\n' s ≡ false
  pub no_return : has b'\r' s ≡ false
  pub no_quote : (kind ≡ snippet) ⊎ (has b'"' s ≡ false)

module _ (P : Text → Type 0) where
  unfoldable mutual
    -- Every string in the value, at any depth.
    pub AllStrings : Json → Type 0
    AllStrings (Json.string s) = P s
    AllStrings (Json.array a) = AllItems a
    AllStrings (Json.object o) = AllMembers o
    AllStrings _ = Unit

    pub AllItems : Items → Type 0
    AllItems Items.nil = Unit
    AllItems (Items.cons j rest) = AllStrings j × AllItems rest

    pub AllMembers : Members → Type 0
    AllMembers Members.end = Unit
    AllMembers (Members.member k j rest) = AllStrings j × AllMembers rest

  extend_items-All :
      (a : Items) (stack : List Json)
      → All AllStrings (extend_items a stack) ↔ (AllItems a × All AllStrings stack)
  unfolding extend_items AllItems
  extend_items-All Items.nil stack = (λ h. (tt, h), λ h. h.1)
  extend_items-All (Items.cons j rest) stack =
      let (into, from) = extend_items-All rest (j ∷ stack) in
      (λ h. let (r, g) = into h in ((g.0, r), g.1), λ h. from (h.0.1, (h.0.0, h.1)))

  extend_members-All :
      (o : Members) (stack : List Json)
      → All AllStrings (extend_members o stack) ↔ (AllMembers o × All AllStrings stack)
  unfolding extend_members AllMembers
  extend_members-All Members.end stack = (λ h. (tt, h), λ h. h.1)
  extend_members-All (Members.member k j rest) stack =
      let (into, from) = extend_members-All rest (j ∷ stack) in
      (λ h. let (r, g) = into h in ((g.0, r), g.1), λ h. from (h.0.1, (h.0.0, h.1)))

abbrev stack_size : List Json → ℕ
stack_size [] = 0
stack_size (j ∷ stack) = size j + stack_size stack

extend_items_size :
    (a : Items) (stack : List Json)
    → stack_size (extend_items a stack) ≡ items_size a + stack_size stack
unfolding extend_items items_size
extend_items_size Items.nil stack = omega arith
extend_items_size (Items.cons j rest) stack = omega (arith, extend_items_size rest (j ∷ stack))

extend_members_size :
    (o : Members) (stack : List Json)
    → stack_size (extend_members o stack) ≡ members_size o + stack_size stack
unfolding extend_members members_size
extend_members_size Members.end stack = omega arith
extend_members_size (Members.member k j rest) stack =
    omega (arith, extend_members_size rest (j ∷ stack))

is_snippet : (k : Kind) → kind_eq k snippet ≡ true → k ≡ snippet
is_snippet k = elim k as (λ k. kind_eq k snippet ≡ true → k ≡ snippet) [
  | Kind.snippet ↦ λ _. refl
  | _ ↦ λ h. cc
]

is_private_key : (k : Kind) → kind_eq k private_key ≡ true → k ≡ private_key
is_private_key k = elim k as (λ k. kind_eq k private_key ≡ true → k ≡ private_key) [
  | Kind.private_key ↦ λ _. refl
  | _ ↦ λ h. cc
]

snippet_is : (k : Kind) → k ≡ snippet → kind_eq k snippet ≡ true
snippet_is k e = rw e refl

check_string-IsAllowed : (kind : Kind) (s : Text) → check_string kind s ≡ done tt → IsAllowed kind s
unfolding check_string
check_string-IsAllowed kind s h = record {
  no_key = ground arith;
  no_newline = ground arith;
  no_return = ground arith;
  no_quote = elim (Bool-cases (kind_eq kind snippet)) [
    | inl e ↦ inl (is_snippet kind e)
    | inr e ↦ inr (ground arith)
  ];
}

IsAllowed-check_string : (kind : Kind) (s : Text) → IsAllowed kind s → check_string kind s ≡ done tt
unfolding check_string
IsAllowed-check_string kind s a =
    rw (a.no_key, a.no_newline, a.no_return)
      (elim a.no_quote [ inl e ↦ rw (snippet_is kind e) refl | inr e ↦ ground (arith, e) ])

-- The loop returns, and accepts if every string left on the stack is allowed and only then.
record Checked (kind : Kind) (fuel : ℕ) (stack : List Json) : Type 0 where
  result : Result (Unit {0})
  returned : check_stack fuel kind stack ≡ some result
  accepts : (result ≡ done tt) ↔ All (AllStrings (IsAllowed kind)) stack

size_positive : (v : Json) → 1 ≤ size v
unfolding size
size_positive Json.null = omega arith
size_positive (Json.bool b) = omega arith
size_positive (Json.number n) = omega arith
size_positive (Json.string s) = omega arith
size_positive (Json.array a) = omega arith
size_positive (Json.object o) = omega arith

-- A value that is no string and holds none.
passed :
    (fuel : ℕ) (kind : Kind) (v : Json) (stack : List Json)
    → check_stack (suc fuel) kind (v ∷ stack) ≡ check_stack fuel kind stack
    → AllStrings (IsAllowed kind) v
    → Checked kind fuel stack
    → Checked kind (suc fuel) (v ∷ stack)
passed fuel kind v stack e a c = record {
  result = c.result;
  returned = e ∙ c.returned;
  accepts = (λ h. (a, c.accepts.0 h), λ h. c.accepts.1 h.1);
}

-- A value that is replaced by what it holds.
opened :
    (fuel : ℕ) (kind : Kind) (v : Json) (stack stack' : List Json)
    → check_stack (suc fuel) kind (v ∷ stack) ≡ check_stack fuel kind stack'
    → (All (AllStrings (IsAllowed kind)) stack')
      ↔ (AllStrings (IsAllowed kind) v × All (AllStrings (IsAllowed kind)) stack)
    → Checked kind fuel stack'
    → Checked kind (suc fuel) (v ∷ stack)
opened fuel kind v stack stack' e (into, from) c = record {
  result = c.result;
  returned = e ∙ c.returned;
  accepts = (λ h. into (c.accepts.0 h), λ h. c.accepts.1 (from h));
}

check_stack-Checked :
    (fuel : ℕ) (kind : Kind) (stack : List Json) → stack_size stack ≤ fuel → Checked kind fuel stack
unfolding check_stack size AllStrings
check_stack-Checked zero kind [] h = record {
  result = done tt;
  returned = refl;
  accepts = (λ _. tt, λ _. refl);
}
check_stack-Checked (suc fuel) kind [] h = record {
  result = done tt;
  returned = refl;
  accepts = (λ _. tt, λ _. refl);
}
check_stack-Checked zero kind (v ∷ stack) h = absurd (omega (arith, h, size_positive v))
check_stack-Checked (suc fuel) kind (Json.null ∷ stack) h =
    passed fuel kind Json.null stack refl tt
      (check_stack-Checked fuel kind stack (omega (arith, h)))
check_stack-Checked (suc fuel) kind (Json.bool b ∷ stack) h =
    passed fuel kind (Json.bool b) stack refl tt
      (check_stack-Checked fuel kind stack (omega (arith, h)))
check_stack-Checked (suc fuel) kind (Json.number n ∷ stack) h =
    passed fuel kind (Json.number n) stack refl tt
      (check_stack-Checked fuel kind stack (omega (arith, h)))
check_stack-Checked (suc fuel) kind (Json.array a ∷ stack) h =
    opened fuel kind (Json.array a) stack (extend_items a stack) refl
      (extend_items-All (IsAllowed kind) a stack)
      (check_stack-Checked fuel kind (extend_items a stack)
        (omega (arith, h, extend_items_size a stack)))
check_stack-Checked (suc fuel) kind (Json.object o ∷ stack) h =
    opened fuel kind (Json.object o) stack (extend_members o stack) refl
      (extend_members-All (IsAllowed kind) o stack)
      (check_stack-Checked fuel kind (extend_members o stack)
        (omega (arith, h, extend_members_size o stack)))
check_stack-Checked (suc fuel) kind (Json.string s ∷ stack) h =
    elim (Result-cases (check_string kind s)) [
      | inl (u, e) ↦
          passed fuel kind (Json.string s) stack (rw (check_stack, e) refl)
            (check_string-IsAllowed kind s e)
            (check_stack-Checked fuel kind stack (omega (arith, h)))
      | inr (x, e) ↦ record {
        result = fail x;
        returned = rw (check_stack, e) refl;
        accepts = (
          λ (q : fail x ≡ done tt). absurd (ground arith),
          λ a. sym e ∙ IsAllowed-check_string kind s a.0,
        );
      }
    ]

refute : (k : Kind) → k ≡ private_key → kind_eq k private_key ≢ false
refute k e = rw e (λ h. ground arith)

-- The check of a payload always returns. It accepts a private key whatever it is, and of another
-- kind just the payloads none of whose strings, however deep they stand, contains a newline, a
-- carriage return, the words of a private key or, unless the kind is a snippet, a double quote.
pub validate_payload_iff :
    {T : Type 0} ⦃form : Payload T⦄ (kind : Kind) (p : T)
    → (result : Result (Unit {0})) × (validate_payload kind p ≡ some result)
      × ((result ≡ done tt) ↔ (
          (kind ≡ private_key)
          ⊎ AllMembers (IsAllowed kind) (members_of (collect [] (form.to_value p)))))
unfolding validate_payload AllMembers AllStrings size
validate_payload_iff ⦃form = form⦄ kind p =
    let value = Json.object (members_of (collect [] (form.to_value p))) in
    let c = check_stack-Checked (size value) kind (value ∷ []) (omega arith) in
    elim (Bool-cases (kind_eq kind private_key)) [
      | inl e ↦ rw e (done tt, refl, (λ _. inl (is_private_key kind e), λ _. refl))
      | inr e ↦ rw e (
        c.result,
        c.returned,
        (
          λ h. inr (c.accepts.0 h).0,
          λ h. c.accepts.1 (elim h [ inl k ↦ absurd (refute kind k e) | inr a ↦ (a, tt) ]),
        ),
      )
    ]
