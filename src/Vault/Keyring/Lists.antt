-- ===== src/Vault/Keyring/Lists.antt =====
-- Key lists sent over the wire.
use sshvault.Prelude.{
  ℕ, zero, suc, ◌*◌, ◌%◌, ◌<◌, ◌≤◌, ◌≡◌, refl, ap, ◌∙◌, List, [], subst, ap₂, ◌∷◌, ◌++◌, length,
  take, drop, take-append, drop-append, length-append, All, arith, true, ◌==◌, some,
}
use sshvault.Prelude.Order.{Text}
use sshvault.Vault.Fail.{done}
use sshvault.Record.{Uuid}
use sshvault.Vault.Keyring.{Keyring, ShareKeys, share, join, chunks, split_key_list, share_key_list}

abbrev pub IsKey : Text → Type 0
IsKey k = length k ≡ 32

length-join : (ks : List Text) → All IsKey ks → length (join ks) ≡ 32 * length ks
unfolding join
length-join [] hs = refl
length-join (k ∷ ks) hs = omega (arith, hs.0, length-append k (join ks), length-join ks hs.1)

chunks-cons :
    (fuel : ℕ) (k rest : Text) → IsKey k → chunks (suc fuel) (k ++ rest) ≡ k ∷ chunks fuel rest
unfolding chunks
chunks-cons fuel [] rest h = absurd (omega (arith, h))
chunks-cons fuel (c ∷ k) rest h =
    let front : take 32 ((c ∷ k) ++ rest) ≡ c ∷ k =
      subst (λ n. take n ((c ∷ k) ++ rest) ≡ c ∷ k) h (take-append (c ∷ k) rest) in
    let back : drop 32 ((c ∷ k) ++ rest) ≡ rest =
      subst (λ n. drop n ((c ∷ k) ++ rest) ≡ rest) h (drop-append (c ∷ k) rest) in
    ap₂ (λ a b. a ∷ chunks fuel b) front back

chunks-join :
    (fuel : ℕ) (ks : List Text) → All IsKey ks → length ks ≤ fuel → chunks fuel (join ks) ≡ ks
unfolding join chunks
chunks-join zero [] hs h = refl
chunks-join (suc fuel) [] hs h = refl
chunks-join zero (k ∷ ks) hs h = absurd (omega (arith, h))
chunks-join (suc fuel) (k ∷ ks) hs h =
    chunks-cons fuel k (join ks) hs.0
    ∙ ap (λ r. k ∷ r) (chunks-join fuel ks hs.1 (omega (arith, h)))

whole : (n m : ℕ) → n ≡ 32 * m → (n % 32 == 0) ≡ true
whole n m h = ground arith

split_key_list-join :
    (ks : List Text) → All IsKey ks → 0 < length ks → split_key_list (join ks) ≡ done ks
unfolding split_key_list join
split_key_list-join [] hs h = absurd (omega (arith, h))
split_key_list-join ([] ∷ ks) hs h = absurd (omega (arith, hs.0))
split_key_list-join ((c ∷ k) ∷ ks) hs h =
    let list = c ∷ k ++ join ks in
    let n : length list ≡ 32 * suc (length ks) = length-join ((c ∷ k) ∷ ks) hs in
    let fuel : suc (length ks) ≤ length list = omega (arith, n) in
    rw (whole (length list) (suc (length ks)) n, chunks-join (length list) ((c ∷ k) ∷ ks) hs fuel)
      refl

-- The key list of a share that is held, as it is wrapped for a member, splits into the share's
-- keys, if there is one at least and each has 32 bytes.
pub split_key_list-share_key_list :
    (kr : Keyring) (id : Uuid) (s : ShareKeys)
    → share kr id ≡ some s
    → All IsKey s.keys
    → 0 < length s.keys
    → split_key_list (share_key_list kr id) ≡ done s.keys
unfolding split_key_list share_key_list share
split_key_list-share_key_list kr id s e hs h =
    rw (share_key_list, e) (split_key_list-join s.keys hs h)
