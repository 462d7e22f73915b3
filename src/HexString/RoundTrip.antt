-- ===== src/HexString/RoundTrip.antt =====
-- Reading back hexadecimal digits, and what the separator does.
use christians_steam_framewo.Base.{
  ℕ, ◌+◌, ◌*◌, ◌/◌, ◌%◌, ◌<◌, true, false, [], ◌∷◌, ◌++◌, append_assoc, append-nil, lt→ltb, ◌==◌,
  ==_iff, length, Bytes, All, ◌≡◌, ◌≢◌, refl, sym, ap, ◌∙◌, Bool-cases, inl, inr, arith,
}
use christians_steam_framewo.HexString.{
  hex_digit, add_bytes, make_hex_string, digit, read_bytes, from_hex_string,
}

digit-hex_digit : (d : ℕ) → d < 16 → digit (hex_digit d) ≡ d
unfolding digit hex_digit
digit-hex_digit d h = ground arith

-- The digits of each byte, one after the other.
unfoldable pub digits : Bytes → Bytes
unfolding hex_digit
digits [] = []
digits (b ∷ bytes) = hex_digit (b / 16) ∷ hex_digit (b % 16) ∷ digits bytes

length-digits : (bytes : Bytes) → length (digits bytes) ≡ 2 * length bytes
unfolding digits
length-digits [] = refl
length-digits (b ∷ bytes) = omega (arith, length-digits bytes)

add_bytes-digits :
    (bytes : Bytes) (separator x : ℕ) (s : Bytes)
    → add_bytes bytes separator (x ∷ s) ≡ (x ∷ s) ++ digits bytes
unfolding add_bytes digits
add_bytes-digits [] separator x s = sym (append-nil (x ∷ s))
add_bytes-digits (b ∷ bytes) separator x s = elim (Bool-cases (separator == 0)) [
  | inl e ↦ rw e (add_bytes-digits bytes separator x _ ∙ append_assoc (x ∷ s) _ _)
  | inr e ↦ rw e (add_bytes-digits bytes separator x _ ∙ append_assoc (x ∷ s) _ _)
]

make_hex_string-digits : (bytes : Bytes) → make_hex_string bytes 0 ≡ digits bytes
unfolding make_hex_string add_bytes digits
make_hex_string-digits [] = refl
make_hex_string-digits (b ∷ bytes) =
    add_bytes-digits bytes 0 (hex_digit (b / 16)) (hex_digit (b % 16) ∷ [])

read_bytes-digits :
    (bytes result : Bytes)
    → All (λ b. b < 256) bytes
    → length result ≡ length bytes
    → read_bytes (digits bytes) result ≡ (true, bytes)
unfolding read_bytes digits
read_bytes-digits [] [] h l = refl
read_bytes-digits [] (x ∷ result) h l = absurd (omega (arith, l))
read_bytes-digits (b ∷ bytes) [] h l = absurd (omega (arith, l))
read_bytes-digits (b ∷ bytes) (x ∷ result) (h, hs) l =
    let high : digit (hex_digit (b / 16)) ≡ b / 16 = digit-hex_digit (b / 16) (omega arith) in
    let low : digit (hex_digit (b % 16)) ≡ b % 16 = digit-hex_digit (b % 16) (omega arith) in
    let whole : b / 16 * 16 + b % 16 ≡ b = omega arith in
    rw (high, low, whole, lt→ltb b 256 h, read_bytes-digits bytes result hs (omega (arith, l))) refl

-- Bytes that were written without a separator are read back into a span of their number.
pub from_hex_string-make_hex_string :
    (bytes result : Bytes)
    → All (λ b. b < 256) bytes
    → length result ≡ length bytes
    → from_hex_string (make_hex_string bytes 0) result ≡ (true, bytes)
unfolding from_hex_string
from_hex_string-make_hex_string bytes result h l =
    let n : (length (digits bytes) == 2 * length result) ≡ true =
      (==_iff (length (digits bytes)) (2 * length result)).1
        (omega (arith, length-digits bytes, l)) in
    rw (make_hex_string-digits, n) (read_bytes-digits bytes result h l)

-- A separator that is not NUL comes once, before the digits of all the bytes, and never between two.
pub make_hex_string_separator :
    (b : ℕ) (bytes : Bytes) (separator : ℕ)
    → separator ≢ 0
    → make_hex_string (b ∷ bytes) separator ≡ separator ∷ make_hex_string (b ∷ bytes) 0
unfolding make_hex_string add_bytes
make_hex_string_separator b bytes separator h =
    let e : (separator == 0) ≡ false = ground (arith, h) in
    rw e (
      add_bytes-digits bytes separator separator _
      ∙ ap (◌∷◌ separator) (sym (add_bytes-digits bytes 0 (hex_digit (b / 16)) _)))
