-- ===== src/Vault/Frames.antt =====
-- The frames of log.bin: `u32 len || entry_id(16) || blob`, the length in little-endian order.
pub mod Cuts
pub mod Reading
pub mod Canonical
pub mod Torn
use sshvault.Prelude.{
  ℕ, suc, zero, ◌+◌, ◌*◌, ◌/◌, ◌%◌, ◌||◌, List, [], ◌∷◌, ◌++◌, length, take, drop, ltb,
  if◌then◌else◌,
}
use sshvault.Prelude.Order.{Text}
use sshvault.Vault.Fail.{Result, done, fail, corrupt, ◌>>=◌}

-- `u32::to_le_bytes` of `n as u32`
unfoldable pub to_le_bytes : ℕ → Text
to_le_bytes n = n % 256 ∷ (n / 256) % 256 ∷ (n / 65536) % 256 ∷ (n / 16777216) % 256 ∷ []

-- `u32::from_le_bytes`
unfoldable pub from_le_bytes : ℕ → ℕ → ℕ → ℕ → ℕ
from_le_bytes a b c d = a + 256 * b + 65536 * c + 16777216 * d

-- An entry id and its sealed blob.
abbrev pub RawEntry : Type 0
RawEntry = Text × Text

-- The frame that `write_frame_inner` appends.
unfoldable pub frame_of : RawEntry → Text
frame_of (id, blob) = to_le_bytes (16 + length blob) ++ (id ++ blob)

-- The bytes from an offset on, one frame per round; the fuel is more than their number.
unfoldable pub parse_from : ℕ → Text → Result (List RawEntry)
unfolding ◌>>=◌
parse_from zero bytes = fail corrupt
parse_from (suc fuel) [] = done []
parse_from (suc fuel) (a ∷ b ∷ c ∷ d ∷ bytes) =
    let len = from_le_bytes a b c d in
    let rest = parse_from fuel (drop len bytes) in
    if ltb len 16 || ltb (length bytes) len
    then fail corrupt
    else do out ← rest; done ((take 16 bytes, drop 16 (take len bytes)) ∷ out)
parse_from (suc fuel) (a ∷ bytes) = fail corrupt

unfoldable pub parse_frames : Text → Result (List RawEntry)
parse_frames bytes = parse_from (suc (length bytes)) bytes

-- The bytes of a log of frames.
unfoldable pub log_of : List RawEntry → Text
log_of [] = []
log_of (e ∷ es) = frame_of e ++ log_of es
