-- ===== src/Tcp/Framing.antt =====
-- Packets that were written are read back one by one, and a wrong magic value is refused.
use christians_steam_framewo.Base.{
  ℕ, ◌%◌, ◌^◌, ◌<◌, List, [], ◌∷◌, ◌++◌, append_assoc, Bytes, All, bytes_eq, some, Outcome, ok,
  threw, ◌>>=◌, invalid_magic, if◌then◌else◌, ltb, lt→ltb, length, length-append, length-to_little,
  to_little, ◌≡◌, refl, subst, ◌∙◌, arith,
}
use christians_steam_framewo.Wire.{store_int, store_bytes, get_bytes}
use christians_steam_framewo.Wire.Laws.{get_int-append}
use christians_steam_framewo.Tcp.{
  magic_value, header_size, make_header, serialize_header, read_header, write_packet, Socket,
  Delivers, read_bytes, read_packet,
}

abbrev header_bytes : ℕ → Bytes
header_bytes len = to_little 4 len ++ magic_value

serialize_header_lem : (len : ℕ) → serialize_header len ≡ ok (header_bytes len)
unfolding serialize_header store_int store_bytes to_little
serialize_header_lem len = refl

read_header-header_bytes : (len : ℕ) → len < 2 ^ 32 → read_header (header_bytes len) ≡ ok len
unfolding read_header get_bytes bytes_eq
read_header-header_bytes len h = rw (get_int-append 4 len magic_value h)

write_packet_lem :
    (bytes : Bytes)
    → length bytes < 2 ^ 32
    → write_packet bytes ≡ ok (header_bytes (length bytes) ++ bytes)
unfolding write_packet make_header
write_packet_lem bytes h =
    let size : length bytes % 2 ^ 32 ≡ length bytes = omega arith in
    rw size (rw (serialize_header_lem (length bytes)))

-- Of a length below 2 ^ 32 and four more bytes, the length is read if those are the magic value;
-- else the header is refused.
pub read_header_lem :
    (len : ℕ) (a b c d : ℕ)
    → len < 2 ^ 32
    → read_header (to_little 4 len ++ a ∷ b ∷ c ∷ d ∷ [])
      ≡ (if bytes_eq magic_value (a ∷ b ∷ c ∷ d ∷ []) then ok len else threw invalid_magic)
unfolding read_header get_bytes
read_header_lem len a b c d h = rw (get_int-append 4 len (a ∷ b ∷ c ∷ d ∷ []) h)

length-header_bytes : (len : ℕ) → length (header_bytes len) ≡ header_size
length-header_bytes len =
    omega (arith, length-append (to_little 4 len) magic_value, length-to_little 4 len)

-- The bytes of packets, each behind its header.
unfoldable pub framed : List Bytes → Bytes → Bytes
framed [] rest = rest
framed (p ∷ ps) rest = header_bytes (length p) ++ (p ++ framed ps rest)

-- Reading as many packets as there are in a list.
unfoldable pub read_packets : (k : Socket) → List Bytes → k.Stream → Outcome (List Bytes × k.Stream)
read_packets k [] s = ok ([], s)
read_packets k (_ ∷ ps) s = do
  (p, s') ← read_packet k s
  (qs, s'') ← read_packets k ps s'
  ok (p ∷ qs, s'')

-- A packet that fits its length field.
abbrev pub FitsLength : Bytes → Type 0
FitsLength p = length p < 2 ^ 32

read_bytes-some :
    (k : Socket) (n : ℕ) (s : k.Stream) (r : Bytes × k.Stream)
    → k.async_read n s ≡ some r
    → read_bytes k n s ≡ ok r
unfolding read_bytes
read_bytes-some k n s r e = rw (e, read_bytes)

module _ (k : Socket) (io : Delivers k) where
  open io use {incoming, after, reads}

  -- The stream behind one packet.
  behind_packet : k.Stream → Bytes → Bytes → k.Stream
  behind_packet s bytes rest =
      let s' = after s (header_bytes (length bytes)) (bytes ++ rest) in
      if ltb 0 (length bytes) then after s' bytes rest else s'

  read_header_bytes :
      (s : k.Stream) (bytes rest : Bytes)
      → incoming s ≡ header_bytes (length bytes) ++ (bytes ++ rest)
      → read_bytes k header_size s
        ≡ ok (header_bytes (length bytes), after s (header_bytes (length bytes)) (bytes ++ rest))
  read_header_bytes s bytes rest e =
      let len = length bytes in
      read_bytes-some k header_size s _ (
        subst
          (λ n.
            k.async_read n s ≡ some (header_bytes len, after s (header_bytes len) (bytes ++ rest)))
          (length-header_bytes len) (reads s (header_bytes len) (bytes ++ rest) e).0)

  read_packet_next :
      (s : k.Stream) (bytes rest : Bytes)
      → FitsLength bytes
      → incoming s ≡ header_bytes (length bytes) ++ (bytes ++ rest)
      → (read_packet k s ≡ ok (bytes, behind_packet s bytes rest))
        × (incoming (behind_packet s bytes rest) ≡ rest)
  unfolding read_packet behind_packet
  read_packet_next s [] rest h e = (
    rw (read_header_bytes s [] rest e) (rw (read_header-header_bytes 0 h)),
    (reads s (header_bytes 0) rest e).1,
  )
  read_packet_next s (b ∷ bs) rest h e =
      let bytes = b ∷ bs in
      let body = (reads s (header_bytes (length bytes)) (bytes ++ rest) e).1 in
      let pos = lt→ltb 0 (length bytes) (omega arith) in
      (
        rw (read_header_bytes s bytes rest e) (
            rw (read_header-header_bytes (length bytes) h)
              (rw pos (read_bytes-some k (length bytes) _ _ (reads _ bytes rest body).0))),
        rw pos ((reads _ bytes rest body).1),
      )

  read_packets-behind :
      (ps : List Bytes) (s : k.Stream) (rest : Bytes)
      → All FitsLength ps
      → incoming s ≡ framed ps rest
      → (s' : k.Stream) × (read_packets k ps s ≡ ok (ps, s')) × (incoming s' ≡ rest)
  unfolding read_packets framed
  read_packets-behind [] s rest h e = (s, refl, e)
  read_packets-behind (p ∷ ps) s rest h e =
      let next = read_packet_next s p (framed ps rest) h.0 e in
      let (s', more, left) =
        read_packets-behind ps (behind_packet s p (framed ps rest)) rest h.1 next.1 in
      (s', rw next.0 (rw more), left)

-- What a sequence of `write_packet` sends.
unfoldable pub write_packets : List Bytes → Outcome Bytes
write_packets [] = ok []
write_packets (p ∷ ps) = do bytes ← write_packet p; rest ← write_packets ps; ok (bytes ++ rest)

write_packets-framed : (ps : List Bytes) → All FitsLength ps → write_packets ps ≡ ok (framed ps [])
unfolding write_packets framed
write_packets-framed [] h = refl
write_packets-framed (p ∷ ps) h =
    rw (write_packet_lem p h.0) (rw (write_packets-framed ps h.1) (rw append_assoc))

framed-append : (ps : List Bytes) (rest : Bytes) → framed ps [] ++ rest ≡ framed ps rest
unfolding framed
framed-append [] rest = refl
framed-append (p ∷ ps) rest = simp (append_assoc, framed-append ps rest)

-- From a stream that delivers what was written for some packets of fewer than 2 ^ 32 bytes each,
-- the same packets are read in order, empty ones too, and what follows them is left.
pub read_packets-write_packets :
    (k : Socket) (io : Delivers k) (ps : List Bytes) (s : k.Stream) (sent rest : Bytes)
    → All FitsLength ps
    → write_packets ps ≡ ok sent
    → io.incoming s ≡ sent ++ rest
    → (s' : k.Stream) × (read_packets k ps s ≡ ok (ps, s')) × (io.incoming s' ≡ rest)
read_packets-write_packets k io ps s sent rest h w e =
    let same : sent ≡ framed ps [] = cc (write_packets-framed ps h) in
    read_packets-behind k io ps s rest h (e ∙ rw same (framed-append ps rest))
