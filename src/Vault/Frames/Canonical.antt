-- ===== src/Vault/Frames/Canonical.antt =====
-- What can be read is what a writer wrote.
use sshvault.Prelude.{
  ℕ, suc, zero, ◌+◌, ◌<◌, ◌≤◌, ◌≡◌, refl, ap, List, [], ◌∷◌, ◌++◌, length, take, drop, ltb,
  length-append, arith, All, if◌then◌else◌, false, sym, ◌∙◌, subst, Bool, true, ◌||◌, All-append,
}
use mathlib.Core.List.{append_assoc, append-nil}
use sshvault.Prelude.Order.{Text}
use sshvault.Vault.Fail.{Result, done, fail, corrupt, ◌>>=◌}
use sshvault.Vault.Frames.{
  to_le_bytes, from_le_bytes, RawEntry, frame_of, parse_from, parse_frames, log_of,
}
use sshvault.Vault.Frames.Cuts.{take-drop, length-take, take-drop-drop, All-drop, IsByte}
use sshvault.Vault.Frames.Reading.{IsFrame, parse_frames-log_of}

le_back :
    (a b c d : ℕ)
    → IsByte a
    → IsByte b
    → IsByte c
    → IsByte d
    → to_le_bytes (from_le_bytes a b c d) ≡ a ∷ b ∷ c ∷ d ∷ []
unfolding to_le_bytes from_le_bytes
le_back a b c d ha hb hc hd = grind arith

-- A round that read a frame.
round-inv :
    (small over : Bool) (rest : Result (List RawEntry)) (e : RawEntry) (es : List RawEntry)
    → (if small || over then fail corrupt else (rest >>= λ out. done (e ∷ out))) ≡ done es
    → (small ≡ false)
      × (over ≡ false)
      × ((out : List RawEntry) × (rest ≡ done out) × (e ∷ out ≡ es))
unfolding ◌>>=◌
round-inv false false (done out) e es h = (refl, refl, (out, refl, ground arith))
round-inv false false (fail v) e es h = ground arith
round-inv false true rest e es h = ground arith
round-inv true over rest e es h = ground arith

not_lt : (a b : ℕ) → ltb a b ≡ false → b ≤ a
not_lt a b h = ground arith

length-blob :
    (n len : ℕ) (xs : Text) → n ≤ len → len ≤ length xs → n + length (drop n (take len xs)) ≡ len
length-blob n len xs h k =
    let t = take len xs in
    omega (
      arith,
      length-append (take n t) (drop n t),
      ap (length) (take-drop n t),
      length-take len xs k,
      length-take n t (omega (arith, length-take len xs k)),
    )

from_le_bytes_small :
    (a b c d : ℕ) → IsByte a → IsByte b → IsByte c → IsByte d → from_le_bytes a b c d < 4294967296
unfolding from_le_bytes
from_le_bytes_small a b c d ha hb hc hd = omega arith

-- One frame written again.
frame_back :
    (a b c d : ℕ) (xs rest : Text)
    → IsByte a
    → IsByte b
    → IsByte c
    → IsByte d
    → 16 ≤ from_le_bytes a b c d
    → from_le_bytes a b c d ≤ length xs
    → rest ≡ drop (from_le_bytes a b c d) xs
    → frame_of (take 16 xs, drop 16 (take (from_le_bytes a b c d) xs)) ++ rest ≡ a ∷ b ∷ c ∷ d ∷ xs
unfolding frame_of
frame_back a b c d xs rest ha hb hc hd h k e =
    rw
      (
        length-blob 16 (from_le_bytes a b c d) xs h k,
        le_back a b c d ha hb hc hd,
        e,
        take-drop-drop 16 (from_le_bytes a b c d) xs h,
      )
      refl

-- What is read is what stands in the log.
parse_from-canonical :
    (fuel : ℕ) (bytes : Text) (es : List RawEntry)
    → All IsByte bytes
    → parse_from fuel bytes ≡ done es
    → (log_of es ≡ bytes) × All IsFrame es
unfolding parse_from log_of
parse_from-canonical (suc fuel) [] es hs h = ground arith
parse_from-canonical (suc fuel) (a ∷ b ∷ c ∷ d ∷ bytes) es hs h =
    let len = from_le_bytes a b c d in
    let (small, over, (out, r, e)) =
      round-inv (ltb len 16) (ltb (length bytes) len) (parse_from fuel (drop len bytes))
        (take 16 bytes, drop 16 (take len bytes)) es h in
    let (back, frames) =
      parse_from-canonical fuel (drop len bytes) out (All-drop len bytes hs.1.1.1.1) r in
    subst (λ l. (log_of l ≡ a ∷ b ∷ c ∷ d ∷ bytes) × All IsFrame l) e
      (
        frame_back a b c d bytes (log_of out) hs.0 hs.1.0 hs.1.1.0 hs.1.1.1.0 (not_lt len 16 small)
            (not_lt (length bytes) len over) back,
        (
          (
            length-take 16 bytes
                (omega (arith, not_lt len 16 small, not_lt (length bytes) len over)),
            rw (length-blob 16 len bytes (not_lt len 16 small) (not_lt (length bytes) len over))
                (from_le_bytes_small a b c d hs.0 hs.1.0 hs.1.1.0 hs.1.1.1.0),
          ),
          frames,
        ),
      )
parse_from-canonical (suc fuel) (a ∷ b ∷ c ∷ []) es hs h = ground arith
parse_from-canonical (suc fuel) (a ∷ b ∷ []) es hs h = ground arith
parse_from-canonical (suc fuel) (a ∷ []) es hs h = ground arith
parse_from-canonical zero bytes es hs h = ground arith

-- A log of bytes that can be read is exactly the frames that are read from it, written again, and
-- each of them has an id of 16 bytes and a length that fits a u32.
pub parse_frames-canonical :
    (bytes : Text) (es : List RawEntry)
    → All IsByte bytes
    → parse_frames bytes ≡ done es
    → (log_of es ≡ bytes) × All IsFrame es
unfolding parse_frames
parse_frames-canonical bytes es hs h = parse_from-canonical (suc (length bytes)) bytes es hs h

pub log_of-append : (es fs : List RawEntry) → log_of (es ++ fs) ≡ log_of es ++ log_of fs
unfolding log_of
log_of-append [] fs = refl
log_of-append (e ∷ es) fs =
    ap (λ r. frame_of e ++ r) (log_of-append es fs)
    ∙ sym (append_assoc (frame_of e) (log_of es) (log_of fs))

-- Appending the frame of an entry, with an id of 16 bytes and a length that fits a u32, to a log
-- of bytes that can be read appends the entry to what is read.
pub parse_frames-append :
    (bytes : Text) (es : List RawEntry) (e : RawEntry)
    → All IsByte bytes
    → parse_frames bytes ≡ done es
    → IsFrame e
    → parse_frames (bytes ++ frame_of e) ≡ done (es ++ (e ∷ []))
unfolding log_of
parse_frames-append bytes es e hs h k =
    let (back, frames) = parse_frames-canonical bytes es hs h in
    subst (λ b. parse_frames b ≡ done (es ++ (e ∷ [])))
      (log_of-append es (e ∷ [])
        ∙ ap (λ b. b ++ (frame_of e ++ [])) back
        ∙ ap (λ r. bytes ++ r) (append-nil (frame_of e)))
      (parse_frames-log_of (es ++ (e ∷ [])) (All-append IsFrame es (e ∷ []) frames (k, tt)))
