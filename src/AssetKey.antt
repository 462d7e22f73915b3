-- ===== src/AssetKey.antt =====
-- Headers/Helpers/ParseNumber.hpp and Sources/AssetKey.cpp: parsing numbers, and the key of an item
-- in a "classinfo" string. A number is the bits that are stored.
pub mod ClassInfo
use christians_steam_framewo.Base.{
  ℕ, ◌+◌, ◌-◌, ◌*◌, ◌^◌, ◌%◌, Bool, true, false, List, [], ◌∷◌, ◌&&◌, Option, none, some, Bytes,
  codes, if◌then◌else◌, within, ltb, leb, ◌==◌, bytes_eq,
}

pub data IntegerType : Type 0 where
  unsigned signed : (bits : ℕ) → IntegerType

abbrev pub is_empty : Bytes → Bool
is_empty [] = true
is_empty (c ∷ cs) = false

abbrev pub is_digit : ℕ → Bool
is_digit c = within 48 57 c

-- The digits at the front, and what follows them.
unfoldable pub span_digits : Bytes → Bytes × Bytes
span_digits [] = ([], [])
span_digits (c ∷ cs) =
    let (digits, rest) = span_digits cs in if is_digit c then (c ∷ digits, rest) else ([], c ∷ cs)

-- The number that digits make, behind those that made another.
unfoldable pub decimal : ℕ → Bytes → ℕ
decimal n [] = n
decimal n (c ∷ cs) = decimal (10 * n + (c - 48)) cs

-- The digits at the front as a number of some limit, if there are any and it is below that.
unfoldable pub magnitude : (limit : ℕ) → Bytes → Option (ℕ × Bytes)
unfolding span_digits decimal
magnitude limit string =
    let (digits, rest) = span_digits string in
    if is_empty digits
    then none
    else if ltb (decimal 0 digits) limit
    then some (decimal 0 digits, rest)
    else none

-- std::from_chars, with the number and what follows it. A sign is read for signed types only.
unfoldable pub from_chars : IntegerType → Bytes → Option (ℕ × Bytes)
unfolding magnitude
from_chars (unsigned bits) string = magnitude (2 ^ bits) string
from_chars (signed bits) [] = none
from_chars (signed bits) (c ∷ cs) =
    if c == 45
    then elim (magnitude (2 ^ (bits - 1) + 1) cs) [
      | none ↦ none
      | some r ↦ some ((2 ^ bits - r.0) % 2 ^ bits, r.1)
    ]
    else magnitude (2 ^ (bits - 1)) (c ∷ cs)

-- What a parser returns, and its two references.
pub record Parsed : Type 0 where
  pub success : Bool
  pub string : Bytes
  pub number : ℕ

-- parseNumber; its string is passed by value.
unfoldable pub parse_number : IntegerType → (string : Bytes) → (number : ℕ) → Bool × ℕ
unfolding from_chars
parse_number type string number = elim (from_chars type string) [
  | none ↦ (false, number)
  | some r ↦ (is_empty r.1, r.0)
]

-- parseNumberPrefix
unfoldable pub parse_number_prefix : IntegerType → (string : Bytes) → (number : ℕ) → Parsed
unfolding from_chars
parse_number_prefix type string number = elim (from_chars type string) [
  | none ↦ record { success = false; string = string; number = number }
  | some r ↦ record { success = true; string = r.1; number = r.0 }
]

-- What `parseNumberSlash` does behind the number.
abbrev pub slash : Parsed → Bytes → Parsed
slash p [] = p
slash p (c ∷ cs) = if c == 47 then record p { string = cs } else record p { success = false }

-- parseNumberSlash
unfoldable pub parse_number_slash : IntegerType → (string : Bytes) → (number : ℕ) → Parsed
unfolding parse_number_prefix
parse_number_slash type string number =
    let p = parse_number_prefix type string number in if p.success then slash p p.string else p

pub record AssetKey : Type 0 where
  pub app_id : ℕ
  pub class_id : ℕ
  pub instance_id : ℕ

abbrev pub app_id_type : IntegerType
app_id_type = signed 32

-- The types of ClassID and InstanceID.
abbrev pub class_id_type : IntegerType
class_id_type = unsigned 64

-- The string without the prefix, if it starts with that.
abbrev pub without_prefix : (string prefix : Bytes) → Option Bytes
without_prefix string [] = some string
without_prefix [] (p ∷ ps) = none
without_prefix (c ∷ cs) (p ∷ ps) = let rest = without_prefix cs ps in if c == p then rest else none

-- parseString, with the reference to the string.
unfoldable pub parse_string : (string prefix : Bytes) → Bool × Bytes
parse_string string prefix = elim (without_prefix string prefix) [
  | none ↦ (false, string)
  | some rest ↦ (true, rest)
]

-- init, with the key and the reference to the string.
unfoldable pub init : AssetKey → Bytes → Bool × AssetKey × Bytes
unfolding parse_string parse_number_slash
init key string =
    let (found, string₀) = parse_string string (codes "classinfo/") in
    if found
    then (let app : Parsed = parse_number_slash app_id_type string₀ key.app_id in
        let key₁ : AssetKey = record key { app_id = app.number } in
        if app.success
        then (let class : Parsed = parse_number_slash class_id_type app.string key.class_id in
            let key₂ : AssetKey = record key₁ { class_id = class.number } in
            if class.success
            then (let last : Parsed =
                  parse_number_slash class_id_type class.string key.instance_id in
                (true, record key₂ { instance_id = last.number }, last.string))
            else (false, key₂, class.string))
        else (false, key₁, app.string))
    else (false, key, string₀)
