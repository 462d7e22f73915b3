-- ===== src/Tests/Connections.antt =====
-- The handshake of an encrypted connection.
use christians_steam_framewo.Base.{
  ℕ, zero, suc, ◌+◌, ◌-◌, ◌%◌, List, [], ◌∷◌, ◌++◌, Option, none, some, Bytes, ok, ◌>>=◌, length,
  length-append, take, take-append, ◌≡◌, refl, arith,
}
use christians_steam_framewo.Ciphers.{OpenSsl, aes_hmac, rsa_encrypt, throw_maybe}
use christians_steam_framewo.Ciphers.RoundTrip.{EcbInverse, CbcInverse, Digests, Fills}
use christians_steam_framewo.Encrypted.{
  Encrypted, encrypting, serialize_response, make_response, establish_encryption, read_packet,
  write_packet,
}
use christians_steam_framewo.Encrypted.Handshake.{
  packet_of, request, result, fresh, responded, peek-packet_of, establish-handshake,
}
use christians_steam_framewo.Encrypted.Packets.{with_engine, read_packet-write_packet}
use christians_steam_framewo.Encrypted.Ready.{establish_encryption-ready}

abbrev zeros : ℕ → Bytes
zeros zero = []
zeros (suc n) = 0 ∷ zeros n

length-zeros : (n : ℕ) → length (zeros n) ≡ n
length-zeros zero = refl
length-zeros (suc n) = omega (arith, length-zeros n)

-- A library that only pads: the count of the padding and its zeros stand around the content.
abbrev padding : Bytes → ℕ
padding bytes = 15 - length bytes % 16

abbrev padded : Bytes → Bytes
padded bytes = padding bytes ∷ (bytes ++ zeros (padding bytes))

abbrev unpadded : Bytes → Option Bytes
unpadded [] = none
unpadded (n ∷ content) = some (take (length content - n) content)

abbrev plain : OpenSsl
plain = record {
  ecb_encrypt = λ key input size. some input;
  ecb_decrypt = λ key input size. some input;
  cbc_encrypt = λ key iv input size. some (padded input);
  cbc_decrypt = λ key iv input size. unpadded input;
  hmac_sha1 = λ key input. some (zeros 20);
  pkey_encrypt_size = λ input. some (length input + 1);
  pkey_encrypt = λ input. some (9 ∷ input);
  crc_32 = λ b. length b;
}

plain-EcbInverse : EcbInverse plain
plain-EcbInverse key iv h = (iv, refl, h, refl)

plain-CbcInverse : CbcInverse plain
plain-CbcInverse key iv bytes l =
    let after : Bytes = zeros (padding bytes) in
    let n : length (bytes ++ after) ≡ length bytes + padding bytes =
      omega (arith, length-append bytes after, length-zeros (padding bytes)) in
    let left : length (bytes ++ after) - padding bytes ≡ length bytes = omega arith in
    (padded bytes, refl, omega (arith, n), rw left (rw (take-append bytes after) refl))

plain-Digests : Digests plain
plain-Digests key bytes = (zeros 20, refl, refl)

zeros-Fills : Fills zeros
zeros-Fills n = length-zeros n

abbrev key : Bytes
key = 1 ∷ 2 ∷ 3 ∷ []

abbrev challenge : Bytes
challenge = 1 ∷ 2 ∷ 3 ∷ 4 ∷ 5 ∷ 6 ∷ 7 ∷ 8 ∷ 9 ∷ 10 ∷ 11 ∷ 12 ∷ 13 ∷ 14 ∷ 15 ∷ 16 ∷ []

-- A packet of another type, in front of each of the server's.
abbrev stray : Bytes
stray = packet_of 703 (5 ∷ [])

abbrev course : List Bytes
course = stray ∷ request challenge ∷ stray ∷ result 1 ∷ (4 ∷ []) ∷ []

abbrev answer : Bytes
answer = let blob = 9 ∷ (key ++ challenge) in serialize_response blob (length blob)

answered : make_response plain key challenge ≡ ok answer
unfolding make_response rsa_encrypt throw_maybe
answered = refl

establish-handshake_example : establish_encryption plain key (fresh course []) ≡ (
    make_response plain key challenge >>= λ response.
    ok (responded key challenge response encrypting ((4 ∷ []) ∷ []) []))
establish-handshake_example =
    establish-handshake plain key challenge 1 (stray ∷ []) (stray ∷ []) ((4 ∷ []) ∷ []) []
      (omega arith) ((703, peek-packet_of 703 (5 ∷ []) (omega arith), refl), tt)
      ((703, peek-packet_of 703 (5 ∷ []) (omega arith), refl), tt)

abbrev established : Encrypted
established = responded key challenge answer encrypting ((4 ∷ []) ∷ []) []

course-established : establish_encryption plain key (fresh course []) ≡ ok established
course-established = rw answered at establish-handshake_example

establish_encryption-ready_example :
    (taken : Bytes) × (response : Bytes) × (rest : List Bytes) × (make_response plain key taken
      ≡ ok response)
    × (established ≡ responded key taken response encrypting rest [])
establish_encryption-ready_example =
    establish_encryption-ready plain key course [] established course-established

read_packet-write_packet_example :
    (packet : Bytes) × (write_packet plain zeros (7 ∷ 8 ∷ []) (with_engine (aes_hmac key) [] [])
      ≡ ok (with_engine (aes_hmac key) [] (packet ∷ [])))
    × (read_packet plain (with_engine (aes_hmac key) (packet ∷ []) [])
        ≡ ok (7 ∷ 8 ∷ [], with_engine (aes_hmac key) [] []))
read_packet-write_packet_example =
    read_packet-write_packet plain (aes_hmac key) zeros (7 ∷ 8 ∷ []) [] [] [] [] plain-EcbInverse
      plain-CbcInverse plain-Digests zeros-Fills (omega arith)
