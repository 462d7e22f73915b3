-- ===== src/Tcp.antt =====
-- Sources/Connection/TCP.cpp: packets on a TCP stream, each behind a length and a magic value. The
-- socket is Boost.Asio's, so what it reads is a parameter.
pub mod Framing
use christians_steam_framewo.Base.{
  ℕ, ◌+◌, ◌%◌, ◌^◌, Bool, true, false, List, [], ◌∷◌, ◌++◌, Bytes, bytes_eq, Option, none, some,
  Outcome, ok, threw, ◌>>=◌, ◌>>◌, assert, connection_error, invalid_magic, if◌then◌else◌, ltb,
  ◌==◌, length, ◌≡◌,
}
use christians_steam_framewo.Wire.{Serializer, store_int, store_bytes, get_int, get_bytes}
use christians_steam_framewo.Message.{empty}

-- "VT01"
abbrev pub magic_value : Bytes
magic_value = b'V' ∷ b'T' ∷ b'0' ∷ b'1' ∷ []

abbrev pub header_size : ℕ
header_size = 8

-- PacketHeader(size_t): the cast to uint32_t.
unfoldable pub make_header : ℕ → ℕ
make_header my_length = my_length % 2 ^ 32

-- PacketHeader::serialize
unfoldable pub serialize_header : ℕ → Outcome Bytes
serialize_header len = do
  let (n, s) = store_int 4 len empty
  let (m, s') = store_bytes magic_value s
  assert (length s'.result == header_size)
  ok s'.result

-- PacketHeader(ConstBytes)
unfoldable pub read_header : Bytes → Outcome ℕ
read_header bytes = do
  (len, d) ← get_int 4 bytes
  (magic_bytes, d') ← get_bytes 4 d
  if bytes_eq magic_value magic_bytes
      then (assert (length d' == 0) >> ok len)
      else threw invalid_magic

-- What `async_write` is given: the two buffers.
unfoldable pub write_packet : Bytes → Outcome Bytes
write_packet bytes = do header ← serialize_header (make_header (length bytes)); ok (header ++ bytes)

-- A socket that is read from: `async_read` fills a buffer of a given size, or fails.
pub record Socket : Type 1 where
  pub Stream : Type 0
  pub async_read : ℕ → Stream → Option (Bytes × Stream)

-- The bytes still to come, of which `async_read` takes as many as it is asked for, if they are there.
pub record Delivers (k : Socket) : Type 0 where
  pub incoming : k.Stream → Bytes
  pub after : k.Stream → Bytes → Bytes → k.Stream
  pub reads :
      (s : k.Stream) (xs ys : Bytes)
      → incoming s ≡ xs ++ ys
      → (k.async_read (length xs) s ≡ some (xs, after s xs ys)) × (incoming (after s xs ys) ≡ ys)

unfoldable pub read_bytes : (k : Socket) → ℕ → k.Stream → Outcome (Bytes × k.Stream)
read_bytes k n s = elim (k.async_read n s) [ none ↦ threw connection_error | some r ↦ ok r ]

-- TCP::readPacket: the packet, and the stream behind it.
unfoldable pub read_packet : (k : Socket) → k.Stream → Outcome (Bytes × k.Stream)
read_packet k s = do
  (header_bytes, s') ← read_bytes k header_size s
  len ← read_header header_bytes
  if ltb 0 len then read_bytes k len s' else ok ([], s')
