-- ===== src/Crypto/Boxes.antt =====
-- What is sealed opens, and what is wrapped for a device unwraps there.
use sshvault.Prelude.{
  ℕ, ◌+◌, ◌≡◌, refl, ◌++◌, arith, length, take, drop, length-append, take-append, drop-append, ltb,
  false, subst,
}
use sshvault.Prelude.Order.{Text}
use sshvault.Crypto.{
  Primitives, Documented, ok, wrap_key_from_shared, seal, open_blob, wrap_vault_key,
  unwrap_vault_key,
}

-- The parts of two joined texts.
front : (n : ℕ) (a b : Text) → length a ≡ n → take n (a ++ b) ≡ a
front n a b e = subst (λ m. take m (a ++ b) ≡ a) e (take-append a b)

back : (n : ℕ) (a b : Text) → length a ≡ n → drop n (a ++ b) ≡ b
back n a b e = subst (λ m. drop m (a ++ b) ≡ b) e (drop-append a b)

long_enough : (m n : ℕ) (s : Text) → length s ≡ m + n → ltb (length s) m ≡ false
long_enough m n s e = ground arith

module _ (p : Primitives) (law : Documented p) where
  length-seal :
      (nonce key msg aad : Text)
      → length nonce ≡ 24
      → length (seal p nonce key msg aad) ≡ 40 + length msg
  unfolding seal
  length-seal nonce key msg aad e = omega (
    arith,
    length-append nonce (p.encrypt key nonce msg aad),
    law.length-encrypt key nonce msg aad,
    e,
  )

  open_blob-seal :
      (nonce key msg aad : Text)
      → length nonce ≡ 24
      → open_blob p key (seal p nonce key msg aad) aad ≡ ok msg
  unfolding open_blob seal
  open_blob-seal nonce key msg aad e =
      let ct = p.encrypt key nonce msg aad in
      rw
        (
          open_blob,
          seal,
          long_enough 40 (length msg) (seal p nonce key msg aad) (length-seal nonce key msg aad e),
          front 24 nonce ct e,
          back 24 nonce ct e,
          law.decrypt-encrypt key nonce msg aad,
        )
        refl

  length-wrap :
      (eph nonce payload recipient device_id : Text)
      → length nonce ≡ 24
      → length (wrap_vault_key p eph nonce payload recipient device_id) ≡ 72 + length payload
  unfolding wrap_vault_key
  length-wrap eph nonce payload recipient device_id e =
      let key = wrap_key_from_shared p (p.diffie_hellman eph recipient) (p.public eph) recipient in
      omega (
        arith,
        length-append (p.public eph) (seal p nonce key payload device_id),
        length-seal nonce key payload device_id e,
        law.length-public eph,
      )

  -- What is wrapped for the public key of a device, under any ephemeral secret and any nonce of 24
  -- bytes, is unwrapped with that device's secret and the same device id, if the packages do what
  -- they document.
  pub unwrap_vault_key-wrap_vault_key :
      (secret eph nonce payload device_id : Text)
      → length nonce ≡ 24
      → unwrap_vault_key p secret
          (wrap_vault_key p eph nonce payload (p.public secret) device_id)
          device_id
        ≡ ok payload
  unfolding unwrap_vault_key wrap_vault_key
  unwrap_vault_key-wrap_vault_key secret eph nonce payload device_id e =
      let recipient = p.public secret in
      let key = wrap_key_from_shared p (p.diffie_hellman eph recipient) (p.public eph) recipient in
      let sealed = seal p nonce key payload device_id in
      rw
        (
          unwrap_vault_key,
          wrap_vault_key,
          long_enough 72 (length payload) (wrap_vault_key p eph nonce payload recipient device_id)
              (length-wrap eph nonce payload recipient device_id e),
          front 32 (p.public eph) sealed (law.length-public eph),
          back 32 (p.public eph) sealed (law.length-public eph),
          law.agreement secret eph,
        )
        (open_blob-seal nonce key payload device_id e)
