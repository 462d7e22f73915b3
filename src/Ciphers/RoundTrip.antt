-- ===== src/Ciphers/RoundTrip.antt =====
-- What was encrypted is decrypted.
use christians_steam_framewo.Base.{
  ℕ, Option, ◌+◌, ◌-◌, ◌*◌, ◌/◌, ◌%◌, ◌^◌, ◌<◌, ◌++◌, true, false, Bytes, bytes_eq_iff, some, ok,
  ltb, leb, length, take, drop, length-append, length-take, take-append, drop-append, ◌≡◌, refl,
  arith,
}
use christians_steam_framewo.Ciphers.{
  OpenSsl, throw_maybe, run, iv_size, output_size, encrypt_with_iv, decrypt_with_iv, digest,
  make_iv, is_valid_iv, Engine, aes, aes_hmac, encrypt, decrypt,
}

-- A block of 16 bytes is encrypted to one, which is decrypted to it.
abbrev pub EcbInverse : OpenSsl → Type 0
EcbInverse lib =
    (key iv : Bytes)
    → length iv ≡ 16
    → (block : Bytes) × (lib.ecb_encrypt key iv 16 ≡ some block)
      × (length block ≡ 16)
      × (lib.ecb_decrypt key block 16 ≡ some iv)

-- Fewer than 2 ^ 31 - 32 bytes are encrypted, with the padding to whole blocks, to what is decrypted
-- to them.
abbrev pub CbcInverse : OpenSsl → Type 0
CbcInverse lib =
    (key iv bytes : Bytes)
    → length bytes < 2 ^ 31 - 32
    → (content : Bytes) × (lib.cbc_encrypt key iv bytes (length bytes) ≡ some content)
      × (length content ≡ (length bytes + 16) / 16 * 16)
      × (lib.cbc_decrypt key iv content (length content) ≡ some bytes)

-- A digest has 20 bytes.
abbrev pub Digests : OpenSsl → Type 0
Digests lib =
    (key bytes : Bytes)
    → (hash : Bytes) × (lib.hmac_sha1 key bytes ≡ some hash) × (length hash ≡ 20)

-- As many random bytes as are asked for.
abbrev pub Fills : (ℕ → Bytes) → Type 0
Fills random = (n : ℕ) → length (random n) ≡ n

run_ok :
    (cipher : Bytes → ℕ → Option Bytes) (input output : Bytes) (size : ℕ)
    → length input < 2 ^ 31
    → cipher input (length input) ≡ some output
    → leb (length output) size ≡ true
    → run cipher input size ≡ ok output
unfolding run throw_maybe
run_ok cipher input output size l e fits =
    let small : length input % 2 ^ 32 ≡ length input = omega arith in rw small (rw e (rw fits refl))

-- An iv and the content are encrypted, and both are decrypted from that.
decrypt-encrypt_with_iv :
    (lib : OpenSsl) (key bytes iv : Bytes)
    → EcbInverse lib
    → CbcInverse lib
    → length bytes < 2 ^ 31 - 64
    → length iv ≡ 16
    → (output : Bytes) × (encrypt_with_iv lib key bytes iv ≡ ok output)
      × (decrypt_with_iv lib key output ≡ ok (bytes, iv))
unfolding encrypt_with_iv decrypt_with_iv
decrypt-encrypt_with_iv lib key bytes iv ecb cbc l i =
    let (block, e, n, d) = ecb key iv i in
    let (content, e', n', d') = cbc key iv bytes (omega arith) in
    let all : length (block ++ content) ≡ 16 + length content =
      omega (arith, length-append block content) in
    let e₁ : lib.ecb_encrypt key iv (length iv) ≡ some block = rw i e in
    let d₁ : lib.ecb_decrypt key block (length block) ≡ some iv = rw n d in
    let first : take 16 (block ++ content) ≡ block = rw n at (take-append block content) in
    let second : drop 16 (block ++ content) ≡ content = rw n at (drop-append block content) in
    let enough : ltb (length (block ++ content)) 16 ≡ false = ground arith in
    (
      block ++ content,
      rw
          (run_ok (lib.ecb_encrypt key) iv block (output_size (length bytes)) (omega arith) e₁
            (ground arith))
          (rw n (
            rw
              (run_ok (lib.cbc_encrypt key iv) bytes content (output_size (length bytes) - 16)
                (omega arith) e' (ground arith))
              refl)),
      rw enough (
          rw first (
            rw (run_ok (lib.ecb_decrypt key) block iv 16 (omega arith) d₁ (ground arith)) (
              rw i (
                rw second (
                  rw
                    (run_ok (lib.cbc_decrypt key iv) content bytes (length (block ++ content) - 16)
                      (omega arith) d' (ground arith))
                    refl))))),
    )

-- The iv of the HMAC encryption has 16 bytes and is valid for its content.
make_iv-valid :
    (lib : OpenSsl) (key random bytes : Bytes)
    → Digests lib
    → length random ≡ 3
    → (iv : Bytes) × (make_iv lib key random bytes ≡ ok iv)
      × (length iv ≡ 16)
      × (is_valid_iv lib key bytes iv ≡ ok true)
unfolding make_iv is_valid_iv digest throw_maybe
make_iv-valid lib key random bytes digests r =
    let (hash, e, n) = digests (take 16 key) (random ++ bytes) in
    let prefix : length (take 13 hash) ≡ 13 = omega (arith, length-take 13 hash) in
    let behind : drop 13 (take 13 hash ++ random) ≡ random =
      rw prefix at (drop-append (take 13 hash) random) in
    let front : take 13 (take 13 hash ++ random) ≡ take 13 hash =
      rw prefix at (take-append (take 13 hash) random) in
    (
      take 13 hash ++ random,
      rw e (rw n refl),
      omega (arith, length-append (take 13 hash) random),
      rw behind
          (rw e (rw n (rw front (rw ((bytes_eq_iff (take 13 hash) (take 13 hash)).1 refl) refl)))),
    )

-- If the library encrypts and decrypts as documented, with digests of 20 bytes, and fills the random
-- bytes, then an engine encrypts fewer than 2 ^ 31 - 64 bytes, and decrypts them from that.
pub decrypt-encrypt :
    (lib : OpenSsl) (engine : Engine) (random : ℕ → Bytes) (bytes : Bytes)
    → EcbInverse lib
    → CbcInverse lib
    → Digests lib
    → Fills random
    → length bytes < 2 ^ 31 - 64
    → (output : Bytes) × (encrypt lib engine random bytes ≡ ok output)
      × (decrypt lib engine output ≡ ok bytes)
unfolding encrypt decrypt
decrypt-encrypt lib (aes key) random bytes ecb cbc digests fills l =
    let (output, e, d) =
      decrypt-encrypt_with_iv lib key bytes (random iv_size) ecb cbc l (fills iv_size) in
    (output, e, rw d refl)
decrypt-encrypt lib (aes_hmac key) random bytes ecb cbc digests fills l =
    let (iv, made, n, valid) = make_iv-valid lib key (random 3) bytes digests (fills 3) in
    let (output, e, d) = decrypt-encrypt_with_iv lib key bytes iv ecb cbc l n in
    (output, rw made (rw e refl), rw d (rw valid refl))
