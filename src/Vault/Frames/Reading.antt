-- ===== src/Vault/Frames/Reading.antt =====
-- Reading back the frames that were written.
use sshvault.Prelude.{
  ℕ, suc, zero, ◌+◌, ◌/◌, ◌%◌, ◌<◌, ◌≤◌, ◌≡◌, refl, ap, List, [], ◌∷◌, ◌++◌, length, ltb,
  length-append, take-append, arith, All, false, sym, ◌∙◌,
}
use mathlib.Core.List.{append_assoc}
use sshvault.Prelude.Order.{Text}
use sshvault.Vault.Fail.{done, ◌>>=◌}
use sshvault.Vault.Frames.{
  to_le_bytes, from_le_bytes, RawEntry, frame_of, parse_from, parse_frames, log_of,
}
use sshvault.Vault.Frames.Cuts.{take_twice, drop_twice}

abbrev pub IsFrame : RawEntry → Type 0
IsFrame (id, blob) = (length id ≡ 16) × (16 + length blob < 4294967296)

pub le_round :
    (n : ℕ)
    → n < 4294967296
    → from_le_bytes (n % 256) ((n / 256) % 256) ((n / 65536) % 256) ((n / 16777216) % 256) ≡ n
unfolding from_le_bytes
le_round n h = omega arith

fits {ℓ} :
    {A : Type ℓ} (xs ys zs : List A)
    → ltb (length (xs ++ (ys ++ zs))) (length xs + length ys) ≡ false
fits xs ys zs = ground (arith, length-append xs (ys ++ zs), length-append ys zs)

wide : (n : ℕ) (xs : Text) → ltb (n + length xs) n ≡ false
wide n xs = ground arith

pub parse_from-frame :
    (fuel : ℕ) (id blob rest : Text)
    → length id ≡ 16
    → 16 + length blob < 4294967296
    → parse_from (suc fuel) (frame_of (id, blob) ++ rest)
      ≡ (parse_from fuel rest >>= λ out. done ((id, blob) ∷ out))
unfolding parse_from frame_of to_le_bytes ◌>>=◌
parse_from-frame fuel id blob rest h k =
    rw
      (
        le_round (16 + length blob) k,
        append_assoc id blob rest,
        sym h,
        fits id blob rest,
        wide (length id) blob,
        take-append id (blob ++ rest),
        take_twice id blob rest,
        drop_twice id blob rest,
      )
      refl

-- With as many rounds as frames and one more, the frames are read as they were written.
parse_from-log :
    (fuel : ℕ) (es : List RawEntry)
    → All IsFrame es
    → length es < fuel
    → parse_from fuel (log_of es) ≡ done es
unfolding parse_from log_of ◌>>=◌
parse_from-log zero es hs h = absurd (omega (arith, h))
parse_from-log (suc fuel) [] hs h = refl
parse_from-log (suc fuel) ((id, blob) ∷ es) hs h =
    parse_from-frame fuel id blob (log_of es) hs.0.0 hs.0.1
    ∙ ap (λ r. r >>= λ out. done ((id, blob) ∷ out)) (parse_from-log fuel es hs.1 (omega arith))

pub frames_fit : (es : List RawEntry) → length es ≤ length (log_of es)
unfolding log_of frame_of to_le_bytes
frames_fit [] = omega arith
frames_fit ((id, blob) ∷ es) =
    omega (arith, frames_fit es, length-append (id ++ blob) (log_of es), length-append id blob)

-- Reading a log gives back the entries whose frames were written to it, if each has an id of 16
-- bytes and a length that fits a u32.
pub parse_frames-log_of : (es : List RawEntry) → All IsFrame es → parse_frames (log_of es) ≡ done es
unfolding parse_frames
parse_frames-log_of es hs =
    parse_from-log (suc (length (log_of es))) es hs (omega (arith, frames_fit es))
