-- ===== src/Device/Wrapping.antt =====
-- After a revocation the new key list is wrapped for every remaining device, which can unwrap it,
-- and for no other.
use sshvault.Prelude.{
  ◌≡◌, ◌⊎◌, refl, ap, sym, ◌∙◌, subst, true, false, ◌||◌, Option, none, some, List, [], ◌∷◌, All,
  map, arith, length, inl, inr, Bool-cases, if◌then◌else◌,
}
use sshvault.Prelude.Order.{Text, text_eq}
use sshvault.Crypto.{Documented, Outcome, ok, err, malformed, unwrap_vault_key, wrap_vault_key}
use sshvault.Crypto.Boxes.{unwrap_vault_key-wrap_vault_key}
use sshvault.Proto.{DeviceInfo, WrappedFor}
use sshvault.Sync.{SyncError, Synced, synced, broken, Client}
use sshvault.Device.{thirty_two, wrap_for}
use sshvault.Device.Operations.{rewrap}

-- Who remains when the target is revoked.
abbrev pub remaining : Text → List DeviceInfo → List Text
remaining target [] = []
remaining target (d ∷ ds) =
    let rest = remaining target ds in
    if d.revoked || text_eq d.ed25519_pub_b64 target then rest else d.ed25519_pub_b64 ∷ rest

-- What a device with the secret reads of what was wrapped for it.
abbrev pub unwrapped : Client → Text → WrappedFor → Outcome Text
unwrapped client secret w = elim (client.b64_decode w.wrapped_key_b64) [
  | none ↦ err malformed
  | some blob ↦ elim (client.b64_decode w.device_pub_b64) [
    | none ↦ err malformed
    | some ed ↦ unwrap_vault_key client.primitives secret blob ed
  ]
]

read_by :
    (client : Client) (secret pub_b64 wrapped blob ed : Text)
    → client.b64_decode wrapped ≡ some blob
    → client.b64_decode pub_b64 ≡ some ed
    → unwrapped client secret (record { device_pub_b64 = pub_b64; wrapped_key_b64 = wrapped })
      ≡ unwrap_vault_key client.primitives secret blob ed
read_by client secret pub_b64 wrapped blob ed e f = rw (unwrapped, e, f) refl

decoded_32 : (o : Option Text) (b : Text) → thirty_two o ≡ synced b → o ≡ some b
unfolding thirty_two
decoded_32 none b h = absurd (ground arith)
decoded_32 (some a) b h = ground arith

Synced-cases {ℓ} :
    {A : Type ℓ} (r : Synced A) → ((a : A) × (r ≡ synced a)) ⊎ ((e : SyncError) × (r ≡ broken e))
Synced-cases (synced a) = inl (a, refl)
Synced-cases (broken e) = inr (e, refl)

synced_injective {ℓ} : {A : Type ℓ} {a b : A} → synced a ≡ synced b → a ≡ b
synced_injective h = cc

is_32 : (b : Text) → length b ≡ 32 → thirty_two (some b) ≡ synced b
unfolding thirty_two
is_32 b h = rw (thirty_two, h) refl

-- The device's exchange key is that of its secret.
abbrev pub HasSecret : Client → (Text → Text) → DeviceInfo → Type 0
HasSecret client secret_of d =
    client.b64_decode d.x25519_pub_b64
    ≡ some (client.primitives.public (secret_of d.ed25519_pub_b64))

module _ (client : Client) (law : Documented client.primitives)
    (decodes : (x : Text) → client.b64_decode (client.b64_encode x) ≡ some x)
    (fresh : Text → Text × Text) (nonces : (k : Text) → length (fresh k).1 ≡ 24)
    (secret_of : Text → Text) (key_list : Text) where
  wrapped_with :
      (d : DeviceInfo) (ed : Text)
      → HasSecret client secret_of d
      → thirty_two (client.b64_decode d.ed25519_pub_b64) ≡ synced ed
      → wrap_for client fresh key_list d
        ≡ synced (
            client.b64_encode (
              wrap_vault_key client.primitives
                (fresh d.ed25519_pub_b64).0
                (fresh d.ed25519_pub_b64).1
                key_list
                (client.primitives.public (secret_of d.ed25519_pub_b64))
                ed))
  unfolding wrap_for
  wrapped_with d ed s e =
      rw
        (
          wrap_for,
          s,
          is_32 (client.primitives.public (secret_of d.ed25519_pub_b64))
              (law.length-public (secret_of d.ed25519_pub_b64)),
          e,
        )
        refl

  not_wrapped :
      (d : DeviceInfo) (x : SyncError)
      → HasSecret client secret_of d
      → thirty_two (client.b64_decode d.ed25519_pub_b64) ≡ broken x
      → wrap_for client fresh key_list d ≡ broken x
  unfolding wrap_for
  not_wrapped d x s e =
      rw
        (
          wrap_for,
          s,
          is_32 (client.primitives.public (secret_of d.ed25519_pub_b64))
              (law.length-public (secret_of d.ed25519_pub_b64)),
          e,
        )
        refl

  wrap_for-unwrapped :
      (d : DeviceInfo) (wrapped : Text)
      → HasSecret client secret_of d
      → wrap_for client fresh key_list d ≡ synced wrapped
      → unwrapped client
          (secret_of d.ed25519_pub_b64)
          (record { device_pub_b64 = d.ed25519_pub_b64; wrapped_key_b64 = wrapped })
        ≡ ok key_list
  wrap_for-unwrapped d wrapped s h =
      elim (Synced-cases (thirty_two (client.b64_decode d.ed25519_pub_b64))) [
        | inr (x, e) ↦ let q = sym (not_wrapped d x s e) ∙ h in absurd (ground arith)
        | inl (ed, e) ↦
            let blob =
              wrap_vault_key client.primitives (fresh d.ed25519_pub_b64).0
                (fresh d.ed25519_pub_b64).1 key_list
                (client.primitives.public (secret_of d.ed25519_pub_b64)) ed in
            let same : client.b64_encode blob ≡ wrapped =
              synced_injective (sym (wrapped_with d ed s e) ∙ h) in
            read_by client (secret_of d.ed25519_pub_b64) d.ed25519_pub_b64 wrapped blob ed
              (sym (ap client.b64_decode same) ∙ decodes blob)
              (decoded_32 (client.b64_decode d.ed25519_pub_b64) ed e)
            ∙ unwrap_vault_key-wrap_vault_key client.primitives law (secret_of d.ed25519_pub_b64)
                (fresh d.ed25519_pub_b64).0 (fresh d.ed25519_pub_b64).1 key_list ed
                (nonces d.ed25519_pub_b64)
      ]

  -- What is wrapped for the devices that remain.
  abbrev Given : Text → List DeviceInfo → List WrappedFor → Type 0
  Given target ds ws =
      (map (λ w. w.device_pub_b64) ws ≡ remaining target ds)
      × All (λ w. unwrapped client (secret_of w.device_pub_b64) w ≡ ok key_list) ws

  rewrapped_with :
      (target : Text) (d : DeviceInfo) (ds : List DeviceInfo) (wrapped : Text)
      (ws : List WrappedFor)
      → (d.revoked || text_eq d.ed25519_pub_b64 target) ≡ false
      → wrap_for client fresh key_list d ≡ synced wrapped
      → rewrap client fresh target key_list ds ≡ synced ws
      → rewrap client fresh target key_list (d ∷ ds)
        ≡ synced (record { device_pub_b64 = d.ed25519_pub_b64; wrapped_key_b64 = wrapped } ∷ ws)
  unfolding rewrap
  rewrapped_with target d ds wrapped ws k e f = rw (rewrap, k, e, f) refl

  first_broken :
      (target : Text) (d : DeviceInfo) (ds : List DeviceInfo) (x : SyncError)
      → (d.revoked || text_eq d.ed25519_pub_b64 target) ≡ false
      → wrap_for client fresh key_list d ≡ broken x
      → rewrap client fresh target key_list (d ∷ ds) ≡ broken x
  unfolding rewrap
  first_broken target d ds x k e = rw (rewrap, k, e) refl

  rest_broken :
      (target : Text) (d : DeviceInfo) (ds : List DeviceInfo) (wrapped : Text) (x : SyncError)
      → (d.revoked || text_eq d.ed25519_pub_b64 target) ≡ false
      → wrap_for client fresh key_list d ≡ synced wrapped
      → rewrap client fresh target key_list ds ≡ broken x
      → rewrap client fresh target key_list (d ∷ ds) ≡ broken x
  unfolding rewrap
  rest_broken target d ds wrapped x k e f = rw (rewrap, k, e, f) refl

  nothing : (target : Text) → synced [] ≡ rewrap client fresh target key_list []
  unfolding rewrap
  nothing target = refl

  skipped :
      (target : Text) (d : DeviceInfo) (ds : List DeviceInfo)
      → (d.revoked || text_eq d.ed25519_pub_b64 target) ≡ true
      → rewrap client fresh target key_list (d ∷ ds) ≡ rewrap client fresh target key_list ds
  unfolding rewrap
  skipped target d ds k = rw (rewrap, k) refl

  -- When the loop over the devices succeeds, the new key list is wrapped for just those that are
  -- neither revoked nor the target, in their order, and each of them unwraps the key list with its
  -- own secret; provided that the packages do what they document, base64 reads what it writes, the
  -- nonces have 24 bytes, and the devices' exchange keys are those of their secrets.
  pub rewrap-remaining :
      (target : Text) (ds : List DeviceInfo) (ws : List WrappedFor)
      → All (HasSecret client secret_of) ds
      → rewrap client fresh target key_list ds ≡ synced ws
      → (map (λ w. w.device_pub_b64) ws ≡ remaining target ds)
        × All (λ w. unwrapped client (secret_of w.device_pub_b64) w ≡ ok key_list) ws
  rewrap-remaining target [] ws s h =
      subst (Given target []) (synced_injective (nothing target ∙ h)) (refl, tt)
  rewrap-remaining target (d ∷ ds) ws s h =
      elim (Bool-cases (d.revoked || text_eq d.ed25519_pub_b64 target)) [
        | inl k ↦
            let (keys, opens) =
              rewrap-remaining target ds ws s.1 (sym (skipped target d ds k) ∙ h) in
            (rw k keys, opens)
        | inr k ↦ elim (Synced-cases (wrap_for client fresh key_list d)) [
          | inr (x, e) ↦ let q = sym (first_broken target d ds x k e) ∙ h in absurd (ground arith)
          | inl (wrapped, e) ↦ elim (Synced-cases (rewrap client fresh target key_list ds)) [
            | inr (x, f) ↦
                let q = sym (rest_broken target d ds wrapped x k e f) ∙ h in absurd (ground arith)
            | inl (rest, f) ↦
                let (keys, opens) = rewrap-remaining target ds rest s.1 f in
                let first : WrappedFor = record {
                  device_pub_b64 = d.ed25519_pub_b64;
                  wrapped_key_b64 = wrapped;
                } in
                subst (Given target (d ∷ ds))
                  (synced_injective (sym (rewrapped_with target d ds wrapped rest k e f) ∙ h))
                  (
                    rw k (ap (λ l. d.ed25519_pub_b64 ∷ l) keys),
                    (wrap_for-unwrapped d wrapped s.0 e, opens),
                  )
          ]
        ]
      ]
