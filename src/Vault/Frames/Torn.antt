-- ===== src/Vault/Frames/Torn.antt =====
-- A write that was cut short.
use sshvault.Prelude.{
  ℕ, suc, zero, ◌+◌, ◌<◌, ◌≡◌, refl, List, [], ◌∷◌, ◌++◌, length, take, ltb, length-append, arith,
  All, true, ◌||◌,
}
use mathlib.Core.List.{append_assoc}
use sshvault.Prelude.Order.{Text}
use sshvault.Vault.Fail.{fail, corrupt, ◌>>=◌}
use sshvault.Vault.Frames.{to_le_bytes, RawEntry, frame_of, parse_from, parse_frames, log_of}
use sshvault.Vault.Frames.Cuts.{length-take}
use sshvault.Vault.Frames.Reading.{IsFrame, parse_from-frame, le_round, frames_fit}

short-take {ℓ} : {A : Type ℓ} (n : ℕ) (xs : List A) → n < length xs → length (take n xs) < length xs
short-take n xs h = omega (arith, length-take n xs (omega (arith, h)))

over : (xs : Text) (m : ℕ) → length xs < m → (ltb m 16 || ltb (length xs) m) ≡ true
over xs m h = ground arith

-- Part of a frame is no frame.
torn_frame :
    (fuel k : ℕ) (id blob : Text)
    → IsFrame (id, blob)
    → 0 < k
    → k < 20 + length blob
    → parse_from (suc fuel) (take k (frame_of (id, blob))) ≡ fail corrupt
unfolding frame_of to_le_bytes parse_from
torn_frame fuel zero id blob f h g = absurd (omega (arith, h))
torn_frame fuel (suc zero) id blob f h g = refl
torn_frame fuel (suc (suc zero)) id blob f h g = refl
torn_frame fuel (suc (suc (suc zero))) id blob f h g = refl
torn_frame fuel (suc (suc (suc (suc k)))) id blob f h g =
    let n : length (id ++ blob) ≡ 16 + length blob = omega (arith, length-append id blob, f.0) in
    let cut : length (take k (id ++ blob)) < 16 + length blob =
      omega (arith, short-take k (id ++ blob) (omega (arith, g, n)), n) in
    rw (le_round (16 + length blob) f.1, over (take k (id ++ blob)) (16 + length blob) cut) refl

torn_from :
    (fuel : ℕ) (es : List RawEntry) (tail : Text)
    → All IsFrame es
    → ((n : ℕ) → parse_from (suc n) tail ≡ fail corrupt)
    → length es < fuel
    → parse_from fuel (log_of es ++ tail) ≡ fail corrupt
unfolding log_of ◌>>=◌
torn_from zero es tail hs t h = absurd (omega (arith, h))
torn_from (suc fuel) [] tail hs t h = t fuel
torn_from (suc fuel) ((id, blob) ∷ es) tail hs t h =
    rw
      (
        append_assoc (frame_of (id, blob)) (log_of es) tail,
        parse_from-frame fuel id blob (log_of es ++ tail) hs.0.0 hs.0.1,
        torn_from fuel es tail hs.1 t (omega (arith, h)),
      )
      refl

-- Behind whole frames, a frame of which at least the first byte and not the last was written makes
-- the log unreadable: no entry is made up of it. Ids have 16 bytes and lengths fit a u32.
pub parse_frames-torn :
    (es : List RawEntry) (e : RawEntry) (k : ℕ)
    → All IsFrame es
    → IsFrame e
    → 0 < k
    → k < 20 + length e.1
    → parse_frames (log_of es ++ take k (frame_of e)) ≡ fail corrupt
unfolding parse_frames
parse_frames-torn es (id, blob) k hs f h g =
    torn_from (suc (length (log_of es ++ take k (frame_of (id, blob))))) es
      (take k (frame_of (id, blob))) hs (λ n. torn_frame n k id blob f h g)
      (omega (arith, frames_fit es, length-append (log_of es) (take k (frame_of (id, blob)))))
