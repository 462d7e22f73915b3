-- ===== src/Message/RoundTrip.antt =====
-- Each header is read back from what it wrote, and its type can be peeked at.
use christians_steam_framewo.Base.{
  ℕ, ◌+◌, ◌%◌, ◌^◌, ◌<◌, Bool, true, false, List, [], ◌++◌, append_assoc, append-nil, Bytes, ok,
  ◌>>=◌, if◌then◌else◌, ◌==◌, length, length-append, length-to_little, to_little, ◌≡◌, ◌⊎◌, inr,
  refl, arith,
}
use christians_steam_framewo.Wire.{
  Serializer, store_bytes, store_int, Protobuf, DecodesEncoded, SerializesSmall, store_proto,
}
use christians_steam_framewo.Wire.Laws.{
  layout, total, Fit, store_all_lem, get_int-append, get_all-layout, get_proto-encode,
}
use christians_steam_framewo.Message.{
  empty, flag, with_flag, without_flag, serialize_base, deserialize_base, peek_message_type, Simple,
  simple_fields, serialize_simple, deserialize_simple, Extended, extended_fields,
  serialize_extended, deserialize_extended, make_extended, serialize_header, deserialize_header,
  serialize_message, deserialize_message,
}

-- The type's bytes, with the flag of a protobuf header.
abbrev pub type_value : Bool → ℕ → ℕ
type_value proto t = if proto then with_flag t else t

without-with_flag : (proto : Bool) (t : ℕ) → t < flag → without_flag (type_value proto t) ≡ t
unfolding without_flag with_flag
without-with_flag true t h = ground arith
without-with_flag false t h = omega arith

type_value-lt : (proto : Bool) (t : ℕ) → t < flag → type_value proto t < 256 ^ 4
unfolding with_flag
type_value-lt true t h = ground arith
type_value-lt false t h = omega arith

-- A header that is being read has the type on the wire, or is to be told it.
abbrev pub Expects : ℕ → ℕ → Type 0
Expects expected t = (expected ≡ t) ⊎ (expected ≡ 0)

deserialize_base-type :
    (proto : Bool) (expected t : ℕ) (rest : Bytes)
    → t < flag
    → Expects expected t
    → deserialize_base expected (to_little 4 (type_value proto t) ++ rest) ≡ ok (t, rest)
unfolding deserialize_base
deserialize_base-type proto expected t rest h e =
    rw (get_int-append 4 (type_value proto t) rest (type_value-lt proto t h))
      (rw (without-with_flag proto t h) (ground arith))

serialize_base_lem :
    (proto : Bool) (t : ℕ) (s : Serializer)
    → serialize_base proto t s
      ≡ (4, record { no_logging = t == 703; result = s.result ++ to_little 4 (type_value proto t) })
unfolding serialize_base store_int store_bytes
serialize_base_lem proto t s = rw (length-to_little 4 (type_value proto t))

-- The bytes of a header: its type and its fields.
abbrev header_bytes : ℕ → List (ℕ × ℕ) → Bytes
header_bytes t fields = to_little 4 t ++ layout fields

serialize_simple_lem :
    (h : Simple) (s : Serializer)
    → serialize_simple h s ≡ (
      20,
      record {
        no_logging = h.msg_type == 703;
        result = s.result ++ header_bytes h.msg_type (simple_fields h);
      },
    )
unfolding serialize_simple
serialize_simple_lem h s =
    rw (serialize_base_lem false h.msg_type s)
      (rw ((store_all_lem (simple_fields h) _).0) (rw append_assoc))

serialize_extended_lem :
    (h : Extended) (s : Serializer)
    → serialize_extended h s ≡ (
      35,
      record {
        no_logging = h.msg_type == 703;
        result = s.result ++ header_bytes h.msg_type (extended_fields h);
      },
    )
unfolding serialize_extended
serialize_extended_lem h s =
    rw (serialize_base_lem false h.msg_type s)
      (rw ((store_all_lem (extended_fields h) _).0) (rw append_assoc))

length-header_bytes :
    (t : ℕ) (fields : List (ℕ × ℕ)) (s : Serializer)
    → length (header_bytes t fields) ≡ 4 + total fields
length-header_bytes t fields s = omega (
  arith,
  length-append (to_little 4 t) (layout fields),
  length-to_little 4 t,
  (store_all_lem fields s).1,
)

-- A simple header with a type below 2 ^ 31 and job ids of 64 bits reports and stores 20 bytes, and
-- a header that expects its type, or none, reads it back from them and leaves what follows.
pub deserialize-serialize_simple :
    (h h₀ : Simple) (rest : Bytes)
    → h.msg_type < flag
    → Fit (simple_fields h)
    → Expects h₀.msg_type h.msg_type
    → ((serialize_simple h empty).0 ≡ 20)
      × (length (serialize_simple h empty).1.result ≡ 20)
      × (deserialize_simple h₀ ((serialize_simple h empty).1.result ++ rest) ≡ ok (h, rest))
unfolding deserialize_simple
deserialize-serialize_simple h h₀ rest t f e = rw (serialize_simple_lem h empty) (
  refl,
  length-header_bytes h.msg_type (simple_fields h) empty,
  rw (append_assoc (to_little 4 h.msg_type) (layout (simple_fields h)) rest) (
      rw (deserialize_base-type false h₀.msg_type h.msg_type (layout (simple_fields h) ++ rest) t e)
        (rw (get_all-layout (simple_fields h) rest f))),
)

-- An extended header reports and stores 35 bytes, one less than its `headerSize` of 36, which is
-- not among them: it is read back from them but for that field, which stays that of the header
-- that reads; what follows is left. The type is below 2 ^ 31 and each field fits its width.
pub deserialize-serialize_extended :
    (h h₀ : Extended) (rest : Bytes)
    → h.msg_type < flag
    → Fit (extended_fields h)
    → Expects h₀.msg_type h.msg_type
    → ((serialize_extended h empty).0 ≡ 35)
      × (length (serialize_extended h empty).1.result + 1 ≡ (make_extended h.msg_type).header_size)
      × (deserialize_extended h₀ ((serialize_extended h empty).1.result ++ rest)
          ≡ ok (record h { header_size = h₀.header_size }, rest))
unfolding deserialize_extended make_extended
deserialize-serialize_extended h h₀ rest t f e = rw (serialize_extended_lem h empty) (
  refl,
  omega (arith, length-header_bytes h.msg_type (extended_fields h) empty),
  rw (append_assoc (to_little 4 h.msg_type) (layout (extended_fields h)) rest) (
      rw
        (deserialize_base-type false h₀.msg_type h.msg_type (layout (extended_fields h) ++ rest) t
          e)
        (rw (get_all-layout (extended_fields h) rest f))),
)

store_proto_small :
    (p : Protobuf) (m : p.Proto) (s : Serializer)
    → SerializesSmall p
    → length (p.encode m) < 2 ^ 31
    → store_proto p m s ≡ ok (store_bytes (p.encode m) s)
unfolding store_proto
store_proto_small p m s h l =
    let small : length (p.encode m) % 2 ^ 32 ≡ length (p.encode m) = omega arith in
    rw small (rw (h m l) refl)

-- The bytes of a protobuf header: its type, the length of its message and that message.
abbrev pub header_message : (p : Protobuf) → ℕ → p.Proto → Bytes
header_message p t m =
    to_little 4 (type_value true t) ++ (to_little 4 (length (p.encode m)) ++ p.encode m)

serialize_header_lem :
    (p : Protobuf) (t : ℕ) (m : p.Proto) (s : Serializer)
    → SerializesSmall p
    → length (p.encode m) < 2 ^ 31
    → serialize_header p t m s
      ≡ ok (
        8 + length (p.encode m),
        record { no_logging = t == 703; result = s.result ++ header_message p t m },
      )
unfolding serialize_header store_int store_bytes
serialize_header_lem p t m s h l =
    let small : length (p.encode m) % 2 ^ 32 ≡ length (p.encode m) = omega arith in
    rw (serialize_base_lem true t s)
      (rw small (rw (store_proto_small p m _ h l) (simp append_assoc refl)))

deserialize-header_message :
    (p : Protobuf) (t t₀ : ℕ) (m : p.Proto) (rest : Bytes)
    → DecodesEncoded p
    → t < flag
    → length (p.encode m) < 2 ^ 31
    → Expects t₀ t
    → deserialize_header p t₀ (header_message p t m ++ rest) ≡ ok ((t, m), rest)
unfolding deserialize_header
deserialize-header_message p t t₀ m rest d h l e = simp append_assoc (
    rw
      (deserialize_base-type true t₀ t (to_little 4 (length (p.encode m)) ++ (p.encode m ++ rest)) h
        e)
      (rw (get_int-append 4 (length (p.encode m)) (p.encode m ++ rest) (omega arith))
        (rw (get_proto-encode p m rest d l))))

-- A protobuf header with a type below 2 ^ 31, whose message has fewer than 2 ^ 31 bytes, is
-- serialized, and it is read back by a header that expects its type, or none, and what follows is
-- left, if the library serializes messages of that size and parses them from their own bytes.
pub deserialize-serialize_header :
    (p : Protobuf) (t t₀ : ℕ) (m : p.Proto) (rest : Bytes)
    → SerializesSmall p
    → DecodesEncoded p
    → t < flag
    → length (p.encode m) < 2 ^ 31
    → Expects t₀ t
    → (serialize_header p t m empty >>= λ (_, s). deserialize_header p t₀ (s.result ++ rest))
      ≡ ok ((t, m), rest)
deserialize-serialize_header p t t₀ m rest w d h l e =
    rw (serialize_header_lem p t m empty w l) (deserialize-header_message p t t₀ m rest d h l e)

-- A protobuf message with a type below 2 ^ 31, whose header's message and content have fewer than
-- 2 ^ 31 bytes each, is serialized, and it is read back from that, header and content, by a reader
-- that expects its type, or none, and nothing is left, if the library serializes messages of that
-- size and parses them from their own bytes.
pub deserialize-serialize_message :
    (p q : Protobuf) (t t₀ : ℕ) (m : p.Proto) (c : q.Proto)
    → SerializesSmall p
    → SerializesSmall q
    → DecodesEncoded p
    → DecodesEncoded q
    → t < flag
    → length (p.encode m) < 2 ^ 31
    → length (q.encode c) < 2 ^ 31
    → Expects t₀ t
    → (serialize_message p q t m c empty >>= λ (_, s). deserialize_message p q t₀ s.result)
      ≡ ok (((t, m), c), [])
unfolding deserialize_message serialize_message store_bytes
deserialize-serialize_message p q t t₀ m c w w' d d' h l l' e =
    let content = rw append-nil at (get_proto-encode q c [] d' l') in
    rw (serialize_header_lem p t m empty w l) (
      rw (store_proto_small q c _ w' l')
        (rw (deserialize-header_message p t t₀ m (q.encode c) d h l e) (rw content refl)))

-- The type of a header of any kind, if it is below 2 ^ 31, can be peeked at, whatever follows it.
pub peek_message_type-serialize_base :
    (proto : Bool) (t : ℕ) (rest : Bytes)
    → t < flag
    → peek_message_type ((serialize_base proto t empty).1.result ++ rest) ≡ ok t
unfolding peek_message_type
peek_message_type-serialize_base proto t rest h =
    rw (serialize_base_lem proto t empty) (rw (deserialize_base-type proto 0 t rest h (inr refl)))

-- The type of a simple header, if it is below 2 ^ 31, can be peeked at, whatever follows it.
pub peek_message_type-serialize_simple :
    (h : Simple) (rest : Bytes)
    → h.msg_type < flag
    → peek_message_type ((serialize_simple h empty).1.result ++ rest) ≡ ok h.msg_type
unfolding peek_message_type
peek_message_type-serialize_simple h rest t = rw (serialize_simple_lem h empty) (
    rw (append_assoc (to_little 4 h.msg_type) (layout (simple_fields h)) rest) (
      rw
        (deserialize_base-type false 0 h.msg_type (layout (simple_fields h) ++ rest) t (inr refl))))
