-- ===== src/KeyValue/Binary.antt =====
-- Sources/Steam/KeyValue_Serialize.cpp and KeyValue_Deserialize.cpp: the binary form of a tree.
pub mod Encoded
pub mod Total
pub mod RoundTrip
pub mod Siblings
use christians_steam_framewo.Base.{
  ℕ, zero, suc, ◌+◌, Bool, true, false, List, [], ◌∷◌, ◌++◌, Bytes, Option, none, some, Outcome, ok,
  threw, aborted, out_of_fuel, ◌>>=◌, ◌>>◌, assert, Exception, key_value_error, if◌then◌else◌, ◌==◌,
  ltb, length, take, drop, from_little,
}
use christians_steam_framewo.KeyValue.{
  Item, Node, no_children, child, string, int32, int64, uint64, node, as_node, assign, size,
}

-- The enumeration, `DataType::None` as `none_type`.
pub data DataType : Type 0 where
  none_type string_type int32_type uint64_type end_type int64_type : DataType

unfoldable pub type_byte : DataType → ℕ
type_byte none_type = 0
type_byte string_type = 1
type_byte int32_type = 2
type_byte uint64_type = 7
type_byte end_type = 8
type_byte int64_type = 10

-- The `static_cast<DataType>`; `none` is a value that is no enumerator.
unfoldable pub data_type : ℕ → Option DataType
data_type b =
    if b == 0
    then some none_type
    else if b == 1
    then some string_type
    else if b == 2
    then some int32_type
    else if b == 7
    then some uint64_type
    else if b == 8
    then some end_type
    else if b == 10
    then some int64_type
    else none

-- The two overloads that push a type byte, and a string with its terminator.
unfoldable pub push_type : DataType → Bytes → Bytes
unfolding type_byte
push_type t out = out ++ type_byte t ∷ []

unfoldable pub push_string : Bytes → Bytes → Bytes
push_string s out = (out ++ s) ++ 0 ∷ []

-- The two specialisations for strings and nodes, and the assertion that one of them applied.
unfoldable mutual
  pub serialize_item : Bytes → Item → Bytes → Outcome Bytes
  serialize_item name (string value) out =
      ok (push_string value (push_string name (push_type string_type out)))
  serialize_item name (node n) out = do
    out' ← serialize_children n (push_string name (push_type none_type out))
    ok (push_type end_type (push_type end_type out'))
  serialize_item name _ out = aborted

  pub serialize_children : Node → Bytes → Outcome Bytes
  serialize_children no_children out = ok out
  serialize_children (child name item rest) out = do
    out' ← serialize_item name item out
    serialize_children rest out'

unfoldable pub serialize : Bytes → Node → Outcome Bytes
unfolding serialize_item serialize_children push_type push_string
serialize name n = serialize_item name (node n) []

unfoldable pub get_byte : Bytes → Outcome (ℕ × Bytes)
get_byte [] = threw key_value_error
get_byte (b ∷ bytes) = ok (b, bytes)

unfoldable pub get_string : Bytes → Outcome (Bytes × Bytes)
get_string [] = threw key_value_error
get_string (c ∷ bytes) =
    let more = do (s, bytes') ← get_string bytes; ok (c ∷ s, bytes')
    in if c == 0 then ok ([], bytes) else more

-- `getNumber<T>` at a type of `w` bytes.
unfoldable pub get_number : ℕ → Bytes → Outcome (ℕ × Bytes)
unfolding from_little
get_number w bytes =
    if ltb (length bytes) w
    then threw key_value_error
    else ok (from_little (take w bytes), drop w bytes)

-- The `switch`, with the recursive call for a node as its first argument.
unfoldable pub read_child :
    (Bytes → Outcome (Node × Bytes)) → Option DataType → Bytes → Outcome (Item × Bytes)
unfolding get_string get_number
read_child recurse (some none_type) bytes = do (n, bytes') ← recurse bytes; ok (node n, bytes')
read_child recurse (some string_type) bytes = do
  (s, bytes') ← get_string bytes
  ok (string s, bytes')
read_child recurse (some int32_type) bytes = do
  (n, bytes') ← get_number 4 bytes
  ok (int32 n, bytes')
read_child recurse (some int64_type) bytes = do
  (n, bytes') ← get_number 8 bytes
  ok (int64 n, bytes')
read_child recurse (some uint64_type) bytes = do
  (n, bytes') ← get_number 8 bytes
  ok (uint64 n, bytes')
read_child recurse (some end_type) bytes = aborted
read_child recurse none bytes = threw key_value_error

-- The loop. Each round reads a byte, so fuel above the number of bytes is enough.
unfoldable pub deserialize_children : ℕ → Bytes → Node → Outcome (Node × Bytes)
unfolding get_byte get_string read_child data_type
deserialize_children zero bytes n = out_of_fuel
deserialize_children (suc f) bytes n = do
  (type, bytes₁) ← get_byte bytes
  let more = do
    (name, bytes₂) ← get_string bytes₁
    (item, bytes₃) ← read_child (λ b. deserialize_children f b no_children) (data_type type) bytes₂
    deserialize_children f bytes₃ (assign name item n)
  if type == 8 then ok (n, bytes₁) else more

-- Behind the loop: the only child of `fake` is the root, and it is a node.
unfoldable pub take_root : Node → Outcome (Bytes × Node)
unfolding as_node
take_root (child name item no_children) = do n ← as_node item; ok (name, n)
take_root _ = aborted

-- The `try` with its handler: `none` is the null pointer.
unfoldable pub caught {ℓ} : {A : Type ℓ} → Outcome A → Outcome (Option A)
caught (ok a) = ok (some a)
caught (threw e) = ok none
caught aborted = aborted
caught out_of_fuel = out_of_fuel

unfoldable pub deserialize : Bytes → Outcome (Option (Bytes × Node))
unfolding deserialize_children take_root caught
deserialize bytes =
    caught
      do (fake, rest) ← deserialize_children (suc (length bytes)) bytes no_children; take_root fake
