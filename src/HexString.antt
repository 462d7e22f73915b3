-- ===== src/HexString.antt =====
-- Sources/Helpers/HexString.cpp and Sources/Helpers/FromHexString.cpp: bytes as hexadecimal digits.
pub mod RoundTrip
use christians_steam_framewo.Base.{
  ℕ, ◌+◌, ◌-◌, ◌*◌, ◌/◌, ◌%◌, Bool, true, false, not, ◌&&◌, List, [], ◌∷◌, ◌++◌, if◌then◌else◌, ltb,
  within, ◌==◌, length, Bytes,
}

-- hexDigit, whose argument is below 16: both calls pass four bits.
unfoldable pub hex_digit : ℕ → ℕ
hex_digit d = if ltb d 10 then 48 + d else 87 + d

abbrev pub is_empty : Bytes → Bool
is_empty [] = true
is_empty (_ ∷ _) = false

-- The loop of `makeHexString`.
unfoldable pub add_bytes : Bytes → ℕ → Bytes → Bytes
unfolding hex_digit
add_bytes [] separator result = result
add_bytes (b ∷ bytes) separator result =
    let separated =
      if not (separator == 0) && is_empty result then result ++ separator ∷ [] else result in
    add_bytes bytes separator (separated ++ hex_digit (b / 16) ∷ hex_digit (b % 16) ∷ [])

unfoldable pub make_hex_string : Bytes → ℕ → Bytes
unfolding add_bytes
make_hex_string bytes separator = add_bytes bytes separator []

unfoldable pub digit : ℕ → ℕ
digit c =
    if within 48 57 c
    then c - 48
    else if within 97 102 c
    then c - 87
    else if within 65 70 c
    then c - 55
    else 256

-- The loop of `fromHexString`: whether it went through, and the bytes of the span after it. The
-- bits of the two digits do not overlap, so `|` is a sum.
unfoldable pub read_bytes : Bytes → Bytes → Bool × Bytes
unfolding digit
read_bytes (a ∷ b ∷ s) (x ∷ result) =
    let byte = digit a * 16 + digit b in
    let (fine, rest) = read_bytes s result in
    if ltb byte 256 then (fine, byte ∷ rest) else (false, x ∷ result)
read_bytes _ result = (true, result)

unfoldable pub from_hex_string : Bytes → Bytes → Bool × Bytes
unfolding read_bytes
from_hex_string s result =
    if length s == 2 * length result then read_bytes s result else (false, result)
