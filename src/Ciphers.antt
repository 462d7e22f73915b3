-- ===== src/Ciphers.antt =====
-- Sources/OpenSSL: AESBase.cpp, AES.cpp, AESHMAC.cpp, RSA.cpp and the `run` of XCrypt.hpp: what the
-- encryption of a connection makes of the OpenSSL library, which is a parameter, as are the random
-- bytes. A key has 32 bytes.
pub mod RoundTrip
use christians_steam_framewo.Base.{
  ℕ, ◌+◌, ◌-◌, ◌*◌, ◌/◌, ◌%◌, ◌^◌, Bool, List, [], ◌∷◌, ◌++◌, Bytes, bytes_eq, Option, none, some,
  Outcome, ok, threw, ◌>>=◌, ◌>>◌, assert, openssl_error, hmac_mismatch, length_error,
  if◌then◌else◌, ltb, leb, ◌==◌, length, take, drop,
}
use christians_steam_framewo.Wire.{to_int}

-- The calls of the library, `none` for an error: AES-256 in ECB without padding and in CBC with it,
-- which take the input with its size as an `int`; HMAC-SHA1; and RSA with the public key, the size of
-- the result first. `crc_32` is Boost's.
pub record OpenSsl : Type 0 where
  pub ecb_encrypt : (key input : Bytes) → (size : ℕ) → Option Bytes
  pub ecb_decrypt : (key input : Bytes) → (size : ℕ) → Option Bytes
  pub cbc_encrypt : (key iv input : Bytes) → (size : ℕ) → Option Bytes
  pub cbc_decrypt : (key iv input : Bytes) → (size : ℕ) → Option Bytes
  pub hmac_sha1 : (key input : Bytes) → Option Bytes
  pub pkey_encrypt_size : (input : Bytes) → Option ℕ
  pub pkey_encrypt : (input : Bytes) → Option Bytes
  pub crc_32 : Bytes → ℕ

-- Exception::throwMaybe
unfoldable pub throw_maybe {ℓ} : {A : Type ℓ} → Option A → Outcome A
throw_maybe none = threw openssl_error
throw_maybe (some a) = ok a

-- Xcrypt::run, with the call and the size of the output buffer.
unfoldable pub run : (cipher : Bytes → ℕ → Option Bytes) → (input : Bytes) → ℕ → Outcome Bytes
unfolding throw_maybe
run cipher input size = do
  output ← throw_maybe (cipher input (to_int (length input)))
  _ ← assert (leb (length output) size)
  ok output

abbrev pub iv_size : ℕ
iv_size = 16

-- The mask `~0x0fU` has 32 bits.
abbrev pub output_size : ℕ → ℕ
output_size n = (n + iv_size + 16) % 2 ^ 32 / 16 * 16

module _ (lib : OpenSsl) where
  unfoldable pub encrypt_with_iv : (key bytes iv : Bytes) → Outcome Bytes
  unfolding run
  encrypt_with_iv key bytes iv = do
    block ← run (lib.ecb_encrypt key) iv (output_size (length bytes))
    _ ← assert (length block == iv_size)
    content ← run (lib.cbc_encrypt key iv) bytes (output_size (length bytes) - length block)
    ok (block ++ content)

  -- The plaintext and the iv. Of fewer bytes than an iv, the size of the output wraps around, and the
  -- vector cannot be made.
  unfoldable pub decrypt_with_iv : (key bytes : Bytes) → Outcome (Bytes × Bytes)
  unfolding run
  decrypt_with_iv key bytes = if ltb (length bytes) iv_size then threw length_error else do
    iv ← run (lib.ecb_decrypt key) (take iv_size bytes) iv_size
    _ ← assert (length iv == iv_size)
    plaintext ← run (lib.cbc_decrypt key iv) (drop iv_size bytes) (length bytes - iv_size)
    ok (plaintext, iv)

  -- HMACSHA1::digest, into 20 bytes; the first half of the key is its key.
  unfoldable pub digest : (key bytes : Bytes) → Outcome Bytes
  unfolding throw_maybe
  digest key bytes = do
    hash ← throw_maybe (lib.hmac_sha1 (take 16 key) bytes)
    _ ← assert (length hash == 20)
    ok hash

  -- makeIV, with 3 random bytes.
  unfoldable pub make_iv : (key random bytes : Bytes) → Outcome Bytes
  unfolding digest
  make_iv key random bytes = do hash ← digest key (random ++ bytes); ok (take 13 hash ++ random)

  -- isValidIV
  unfoldable pub is_valid_iv : (key plaintext iv : Bytes) → Outcome Bool
  unfolding digest
  is_valid_iv key plaintext iv = do
    hash ← digest key (drop 13 iv ++ plaintext)
    ok (bytes_eq (take 13 hash) (take 13 iv))

  -- RSACrypto::encrypt
  unfoldable pub rsa_encrypt : Bytes → Outcome Bytes
  unfolding throw_maybe
  rsa_encrypt bytes = do
    size ← throw_maybe (lib.pkey_encrypt_size bytes)
    result ← throw_maybe (lib.pkey_encrypt bytes)
    _ ← assert (length result == size)
    ok result

-- AESCrypto and AESCryptoHMAC, with their key.
pub data Engine : Type 0 where
  aes aes_hmac : Bytes → Engine

-- `random` is what `makeRandomBytes` fills a number of bytes with.
unfoldable pub encrypt : OpenSsl → Engine → (random : ℕ → Bytes) → Bytes → Outcome Bytes
unfolding encrypt_with_iv make_iv
encrypt lib (aes key) random bytes = encrypt_with_iv lib key bytes (random iv_size)
encrypt lib (aes_hmac key) random bytes = do
  iv ← make_iv lib key (random 3) bytes
  encrypt_with_iv lib key bytes iv

unfoldable pub decrypt : OpenSsl → Engine → Bytes → Outcome Bytes
unfolding decrypt_with_iv is_valid_iv
decrypt lib (aes key) bytes = do (plaintext, iv) ← decrypt_with_iv lib key bytes; ok plaintext
decrypt lib (aes_hmac key) bytes = do
  (plaintext, iv) ← decrypt_with_iv lib key bytes
  valid ← is_valid_iv lib key plaintext iv
  if valid then ok plaintext else threw hmac_mismatch
