-- ===== src/Wire.antt =====
-- Headers/Connection/Serialize.hpp and Sources/Connection/Serialize.cpp: byte streams. Each `store`
-- returns the number of bytes stored with the serializer; each `get` returns the value with the
-- data that is left of the deserializer.
pub mod Laws
use christians_steam_framewo.Base.{
  ℕ, suc, ◌+◌, Bool, List, [], ◌∷◌, ◌++◌, Bytes, Option, none, some, Outcome, ok, threw, aborted,
  ◌>>=◌, ◌>>◌, assert, not_enough_data, protobuf_error, runtime_error, ◌^◌, ◌%◌, ◌<◌, ◌&&◌, true,
  if◌then◌else◌, ltb, leb, length, take, drop, from_little, to_little, ◌≡◌,
}

pub record Serializer : Type 0 where
  pub no_logging : Bool
  pub result : Bytes

abbrev pub Stored : Type 0
Stored = ℕ × Serializer

-- The container overload.
unfoldable pub store_bytes : Bytes → Serializer → Stored
store_bytes bytes s = (length bytes, record s { result = s.result ++ bytes })

-- The overloads for integers and enumerations, of `w` bytes.
unfoldable pub store_int : ℕ → ℕ → Serializer → Stored
unfolding store_bytes to_little
store_int w value s = store_bytes (to_little w value) s

-- The variadic overload: widths and values.
unfoldable pub store_all : List (ℕ × ℕ) → Serializer → Stored
unfolding store_int
store_all [] s = (0, s)
store_all ((w, value) ∷ rest) s =
    let (n, s') = store_int w value s in let (m, s'') = store_all rest s' in (n + m, s'')

unfoldable pub get_remaining : Bytes → Bytes × Bytes
get_remaining d = (d, [])

unfoldable pub get_bytes : ℕ → Bytes → Outcome (Bytes × Bytes)
get_bytes size d =
    if ltb (length d) size then threw not_enough_data else ok (take size d, drop size d)

-- get<T>() for an integer or enumeration of `w` bytes.
unfoldable pub get_int : ℕ → Bytes → Outcome (ℕ × Bytes)
unfolding from_little
get_int w d = do (bytes, d') ← get_bytes w d; ok (from_little bytes, d')

-- The variadic `get`, at the widths of its targets.
unfoldable pub get_all : List ℕ → Bytes → Outcome (List ℕ × Bytes)
get_all [] d = ok ([], d)
get_all (w ∷ ws) d = do
  (value, d') ← get_int w d
  (values, d'') ← get_all ws d'
  ok (value ∷ values, d'')

-- The protobuf library on one message type: the bytes of a message; whether `SerializeToArray` puts
-- them into a buffer of some size; and what a parser makes of a stream of some size on some data: the
-- message and the stream's byte count. A size or count is the 32 bits of an `int`.
pub record Protobuf : Type 1 where
  pub Proto : Type 0
  pub encode : Proto → Bytes
  pub serializes : Proto → (size : ℕ) → Bool
  pub decode : Bytes → (size : ℕ) → Option (Proto × ℕ)

-- The values of `int` that are not negative.
abbrev pub int_limit : ℕ
int_limit = 2 ^ 31

-- static_cast<int>
abbrev pub to_int : ℕ → ℕ
to_int n = n % 2 ^ 32

-- A message of fewer than 2 ^ 31 bytes is serialized into a buffer of its size.
abbrev pub SerializesSmall : Protobuf → Type 0
SerializesSmall p =
    (m : p.Proto) → length (p.encode m) < int_limit → p.serializes m (length (p.encode m)) ≡ true

-- From a stream of its size, such a message is parsed whole.
abbrev pub DecodesEncoded : Protobuf → Type 0
DecodesEncoded p =
    (m : p.Proto) (rest : Bytes)
    → length (p.encode m) < int_limit
    → p.decode (p.encode m ++ rest) (length (p.encode m)) ≡ some (m, length (p.encode m))

-- Serializer::storeProto
unfoldable pub store_proto : (p : Protobuf) → p.Proto → Serializer → Outcome Stored
unfolding store_bytes
store_proto p m s =
    if p.serializes m (to_int (length (p.encode m)))
    then ok (store_bytes (p.encode m) s)
    else threw runtime_error

-- Deserializer::getProto
unfoldable pub get_proto : (p : Protobuf) → ℕ → Bytes → Outcome (p.Proto × Bytes)
get_proto p size d =
    if ltb (length d) size then threw not_enough_data else elim (p.decode d (to_int size)) [
      | none ↦ threw protobuf_error
      | some (m, count) ↦ assert (ltb count int_limit && leb count (length d)) >>= λ _.
          get_bytes count d >>= λ (_, d'). ok (m, d')
    ]
