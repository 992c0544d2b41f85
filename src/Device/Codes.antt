-- ===== src/Device/Codes.antt =====
-- A short code finds one device, and only if no other device has it.
use sshvault.Prelude.{
  ◌≡◌, ◌≢◌, refl, ap, sym, ◌∙◌, false, List, [], ◌∷◌, ◌++◌, All, arith, inl, inr, Bool-cases,
}
use sshvault.Prelude.Order.{Text, text_eq, text_eq_iff}
use sshvault.Prelude.Texts.{lowercase}
use sshvault.Proto.{DeviceInfo}
use sshvault.Sync.{Client}
use sshvault.Device.{
  Joined, joined, stopped, World, list_devices, ◌>>=◌, next_task, short_code, matches, single,
  find_by_code,
}

-- The one place where the code stands in a list of devices.
pub record Unique (client : Client) (code : Text) (devices : List DeviceInfo) (d : DeviceInfo)
    : Type 0 where
  pub before : List DeviceInfo
  pub after : List DeviceInfo
  pub split : devices ≡ before ++ (d ∷ after)
  pub has_code : short_code client d.ed25519_pub_b64 ≡ code
  pub none_before : All (λ e. short_code client e.ed25519_pub_b64 ≢ code) before
  pub none_after : All (λ e. short_code client e.ed25519_pub_b64 ≢ code) after

module _ (client : Client) (code : Text) where
  differs :
      (d : DeviceInfo)
      → text_eq (short_code client d.ed25519_pub_b64) code ≡ false
      → short_code client d.ed25519_pub_b64 ≢ code
  differs d e h =
      let same = (text_eq_iff (short_code client d.ed25519_pub_b64) code).1 h in ground arith

  unmatched :
      (ds : List DeviceInfo)
      → matches client code ds ≡ []
      → All (λ e. short_code client e.ed25519_pub_b64 ≢ code) ds
  unfolding matches
  unmatched [] h = tt
  unmatched (d ∷ ds) h = elim (Bool-cases (text_eq (short_code client d.ed25519_pub_b64) code)) [
    | inl e ↦ absurd (ground arith)
    | inr e ↦ (differs d e, unmatched ds (ground arith))
  ]

  matched :
      (d : DeviceInfo) (ds : List DeviceInfo)
      → matches client code ds ≡ d ∷ []
      → Unique client code ds d
  unfolding matches
  matched d [] h = absurd (ground arith)
  matched d (x ∷ ds) h = elim (Bool-cases (text_eq (short_code client x.ed25519_pub_b64) code)) [
    | inl e ↦
        let q : x ∷ matches client code ds ≡ d ∷ [] = sym (rw (matches, e) refl) ∙ h in
        let same : x ≡ d = cc in
        let rest : matches client code ds ≡ [] = cc in
        record {
          before = [];
          after = ds;
          split = ap (λ y. y ∷ ds) same;
          has_code =
              ap (λ (y : DeviceInfo). short_code client y.ed25519_pub_b64) (sym same)
              ∙ (text_eq_iff (short_code client x.ed25519_pub_b64) code).0 e;
          none_before = tt;
          none_after = unmatched ds rest;
        }
    | inr e ↦
        let u = matched d ds (sym (rw (matches, e) refl) ∙ h) in
        record {
          before = x ∷ u.before;
          after = u.after;
          split = ap (λ l. x ∷ l) u.split;
          has_code = u.has_code;
          none_before = (differs x e, u.none_before);
          none_after = u.none_after;
        }
  ]

one : (ds : List DeviceInfo) (d : DeviceInfo) → single ds ≡ joined d → ds ≡ d ∷ []
unfolding single
one [] d h = absurd (ground arith)
one (x ∷ []) d h = cc
one (x ∷ y ∷ ds) d h = absurd (ground arith)

looked_up :
    (client : Client) (code : Text) (w w' : World) (d : DeviceInfo)
    (r : Joined (List DeviceInfo) × World)
    → list_devices w ≡ r
    → next_task r (λ devices w. (single (matches client (lowercase code) devices), w))
      ≡ (joined d, w')
    → (devices : List DeviceInfo) × (list_devices w ≡ (joined devices, w'))
      × Unique client (lowercase code) devices d
unfolding next_task
looked_up client code w w' d (stopped e, w1) q h = absurd (ground arith)
looked_up client code w w' d (joined devices, w1) q h = (
  devices,
  q ∙ ap (λ x. (joined devices, x)) (ap (λ r. r.1) h),
  matched client (lowercase code) d devices
      (one (matches client (lowercase code) devices) d (ap (λ r. r.0) h)),
)

-- A device that a code finds stands in the relay's answer and has the code, in lower case; no other
-- device of the answer has it, before or after.
pub find_by_code-Unique :
    (client : Client) (code : Text) (w w' : World) (d : DeviceInfo)
    → find_by_code client code w ≡ (joined d, w')
    → (devices : List DeviceInfo) × (list_devices w ≡ (joined devices, w'))
      × Unique client (lowercase code) devices d
unfolding find_by_code ◌>>=◌
find_by_code-Unique client code w w' d h = looked_up client code w w' d (list_devices w) refl h
