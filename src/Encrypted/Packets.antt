-- ===== src/Encrypted/Packets.antt =====
-- What is written is read at the other end.
use christians_steam_framewo.Base.{
  ℕ, ◌-◌, ◌^◌, ◌<◌, List, [], ◌∷◌, ◌++◌, some, Bytes, ok, length, ◌≡◌, refl,
}
use christians_steam_framewo.Ciphers.{OpenSsl, Engine}
use christians_steam_framewo.Ciphers.RoundTrip.{
  EcbInverse, CbcInverse, Digests, Fills, decrypt-encrypt,
}
use christians_steam_framewo.Encrypted.{
  Encrypted, encrypting, receive, transmit, read_packet, write_packet,
}

-- A connection that is encrypting with some engine.
abbrev pub with_engine : Engine → (incoming sent : List Bytes) → Encrypted
with_engine engine incoming sent = record {
  encryption_engine = some engine;
  encryption_state = encrypting;
  incoming = incoming;
  sent = sent;
}

-- Of two connections with one engine, whichever it is, one writes fewer than 2 ^ 31 - 64 bytes as one
-- packet, and the other reads them from that packet and leaves what came in behind it, if the library
-- encrypts and decrypts as documented, with digests of 20 bytes, and fills the random bytes.
pub read_packet-write_packet :
    (lib : OpenSsl) (engine : Engine) (random : ℕ → Bytes) (bytes : Bytes)
    (incoming sent rest sent' : List Bytes)
    → EcbInverse lib
    → CbcInverse lib
    → Digests lib
    → Fills random
    → length bytes < 2 ^ 31 - 64
    → (packet : Bytes) × (write_packet lib random bytes (with_engine engine incoming sent)
        ≡ ok (with_engine engine incoming (sent ++ packet ∷ [])))
      × (read_packet lib (with_engine engine (packet ∷ rest) sent')
          ≡ ok (bytes, with_engine engine rest sent'))
unfolding read_packet write_packet receive transmit
read_packet-write_packet lib engine random bytes incoming sent rest sent' ecb cbc digests fills l =
    let (packet, e, d) = decrypt-encrypt lib engine random bytes ecb cbc digests fills l in
    (packet, rw e refl, rw d refl)
