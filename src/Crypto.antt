-- ===== src/Crypto.antt =====
-- src/crypto.rs: how sealed and wrapped blobs are laid out, and which keys come from the phrase.
-- The ciphers, the key exchange, the hashes and BIP39 are packages: parameters.
pub mod Boxes
pub mod Epochs
use sshvault.Prelude.{
  ℕ, zero, suc, ◌+◌, ◌*◌, ◌≡◌, Option, none, some, [], ◌∷◌, ◌++◌, length, take, drop, ltb, ◌==◌,
  if◌then◌else◌,
}
use sshvault.Prelude.Order.{Text}
use sshvault.Prelude.Texts.{bytes, trim}
use sshvault.Prelude.Digits.{digits}

pub data CryptoError : Type 0 where
  decrypt_failed bad_phrase kdf malformed : CryptoError

pub data Outcome {ℓ} (A : Type ℓ) : Type ℓ where
  ok : A → Outcome A
  err : CryptoError → Outcome A

module _ {ℓ κ} {A : Type ℓ} {B : Type κ} where
  infixl 10 ◌>>=◌
  abbrev pub ◌>>=◌ : Outcome A → (A → Outcome B) → Outcome B
  ok a >>= f = f a
  err e >>= f = err e

-- XChaCha20-Poly1305 by key, nonce, text and associated data; X25519; HKDF-SHA256 by secret and
-- info; Argon2id; BIP39 by normalized phrase.
pub record Primitives : Type 0 where
  pub encrypt : Text → Text → Text → Text → Text
  pub decrypt : Text → Text → Text → Text → Option Text
  pub public : Text → Text
  pub diffie_hellman : Text → Text → Text
  pub expand : Text → Text → Text
  pub hash_password : Text → Text → ℕ → ℕ → ℕ → Option Text
  pub to_seed : Text → Option Text

-- What the packages document.
pub record Documented (p : Primitives) : Type 0 where
  pub decrypt-encrypt :
      (key nonce msg aad : Text) → p.decrypt key nonce (p.encrypt key nonce msg aad) aad ≡ some msg
  pub length-encrypt :
      (key nonce msg aad : Text) → length (p.encrypt key nonce msg aad) ≡ length msg + 16
  pub length-public : (secret : Text) → length (p.public secret) ≡ 32
  pub agreement : (a b : Text) → p.diffie_hellman a (p.public b) ≡ p.diffie_hellman b (p.public a)

abbrev pub argon2_m_kib : ℕ
argon2_m_kib = 64 * 1024

abbrev pub argon2_t : ℕ
argon2_t = 3

abbrev pub argon2_p : ℕ
argon2_p = 1

abbrev pub nonce_len : ℕ
nonce_len = 24

-- `format!` of a `u32`, which has at most ten digits
unfoldable pub vault_key_info : ℕ → Text
unfolding digits
vault_key_info epoch =
    if epoch == 0
    then bytes "sshvault/v1/vault-key"
    else bytes "sshvault/v1/vault-key/" ++ digits 10 epoch

module _ (p : Primitives) where
  -- `hk.expand(info, …)` of 32 bytes, which does not fail
  unfoldable pub wrap_key_from_shared : Text → Text → Text → Text
  wrap_key_from_shared shared eph_pub recipient_pub =
      p.expand shared (bytes "sshvault/v1/vk-wrap" ++ eph_pub ++ recipient_pub)

  -- `nonce || ciphertext`; the random nonce comes first.
  unfoldable pub seal : Text → Text → Text → Text → Text
  seal nonce key plaintext aad = nonce ++ p.encrypt key nonce plaintext aad

  unfoldable pub open_blob : Text → Text → Text → Outcome Text
  open_blob key blob aad =
      if ltb (length blob) (nonce_len + 16)
      then err malformed
      else elim (p.decrypt key (take nonce_len blob) (drop nonce_len blob) aad) [
        | none ↦ err decrypt_failed
        | some plain ↦ ok plain
      ]

  -- `eph_pub || nonce || ciphertext`; the ephemeral secret and the nonce are random.
  unfoldable pub wrap_vault_key : Text → Text → Text → Text → Text → Text
  unfolding wrap_key_from_shared seal
  wrap_vault_key eph nonce payload recipient_pub recipient_device_id =
      let eph_pub = p.public eph in
      let shared = p.diffie_hellman eph recipient_pub in
      let wrap_key = wrap_key_from_shared shared eph_pub recipient_pub in
      eph_pub ++ seal nonce wrap_key payload recipient_device_id

  unfoldable pub unwrap_vault_key : Text → Text → Text → Outcome Text
  unfolding wrap_key_from_shared open_blob
  unwrap_vault_key device_secret blob device_id =
      let eph_pub = take 32 blob in
      let my_pub = p.public device_secret in
      let shared = p.diffie_hellman device_secret eph_pub in
      let wrap_key = wrap_key_from_shared shared eph_pub my_pub in
      if ltb (length blob) (32 + nonce_len + 16)
      then err malformed
      else open_blob wrap_key (drop 32 blob) device_id

  unfoldable pub seed_from_phrase : Text → Outcome Text
  unfolding trim
  seed_from_phrase phrase = elim (p.to_seed (trim phrase)) [
    | none ↦ err bad_phrase
    | some seed ↦ ok seed
  ]

  unfoldable pub vault_key_at_epoch : Text → ℕ → Outcome Text
  unfolding seed_from_phrase vault_key_info
  vault_key_at_epoch phrase epoch = do
    seed ← seed_from_phrase phrase
    ok (p.expand seed (vault_key_info epoch))

  -- The vault key, and the secret of the recovery key.
  unfoldable pub keys_from_phrase : Text → Outcome (Text × Text)
  unfolding seed_from_phrase vault_key_info
  keys_from_phrase phrase = do
    seed ← seed_from_phrase phrase
    ok (p.expand seed (vault_key_info 0), p.expand seed (bytes "sshvault/v1/recovery-auth"))

  unfoldable pub derive_kek : Text → Text → ℕ → ℕ → ℕ → Outcome Text
  derive_kek passphrase salt m_kib t parallel =
      elim (p.hash_password passphrase salt m_kib t parallel) [ none ↦ err kdf | some key ↦ ok key ]
