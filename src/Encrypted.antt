-- ===== src/Encrypted.antt =====
-- Sources/Connection/Encrypted.cpp and Headers/Connection/Encrypted.hpp: the handshake that sets up
-- the encryption of a connection. The transport is the packets that it delivers and those that were
-- sent on it; after the last one, reading fails. The ciphers are those of Ciphers.
pub mod Handshake
pub mod Ready
pub mod Packets
use christians_steam_framewo.Base.{
  ℕ, ◌-◌, ◌^◌, Bool, true, false, not, List, [], ◌∷◌, ◌++◌, Option, none, some, Bytes, Outcome, ok,
  threw, aborted, ◌>>=◌, ◌>>◌, assert, encryption_failed, connection_error, if◌then◌else◌, leb,
  ◌==◌, length,
}
use christians_steam_framewo.Wire.{
  Serializer, store_int, store_bytes, get_int, get_all, get_remaining,
}
use christians_steam_framewo.Ciphers.{OpenSsl, rsa_encrypt, Engine, aes, aes_hmac, encrypt, decrypt}
use christians_steam_framewo.Message.{
  Simple, serialize_simple, deserialize_simple, peek_message_type, empty,
}

abbrev pub encryption_protocol_version : ℕ
encryption_protocol_version = 1

-- Message::Type, ResultCode::OK and Universe::Type::Public
abbrev pub channel_encrypt_request : ℕ
channel_encrypt_request = 1303

abbrev pub channel_encrypt_response : ℕ
channel_encrypt_response = 1304

abbrev pub channel_encrypt_result : ℕ
channel_encrypt_result = 1305

abbrev pub result_ok : ℕ
result_ok = 1

abbrev pub universe_public : ℕ
universe_public = 1

-- The enumeration, `None` as `not_encrypted`.
pub data EncryptionState : Type 0 where
  not_encrypted challenged encrypting : EncryptionState

pub record Encrypted : Type 0 where
  pub encryption_engine : Option Engine
  pub encryption_state : EncryptionState
  pub incoming : List Bytes
  pub sent : List Bytes

abbrev pub is_encrypting : EncryptionState → Bool
is_encrypting encrypting = true
is_encrypting _ = false

-- A header as it is made.
abbrev pub simple_header : ℕ → Simple
simple_header msg_type = record {
  msg_type = msg_type;
  target_job_id = 2 ^ 64 - 1;
  source_job_id = 2 ^ 64 - 1;
}

-- connection->readPacket()
unfoldable pub receive : Encrypted → Outcome (Bytes × Encrypted)
receive s = elim s.incoming [
  | [] ↦ threw connection_error
  | bytes ∷ rest ↦ ok (bytes, record s { incoming = rest })
]

-- connection->writePacket()
unfoldable pub transmit : Bytes → Encrypted → Encrypted
transmit bytes s = record s { sent = s.sent ++ bytes ∷ [] }

-- MsgChannelEncryptRequest: the protocol version, the universe and the challenge.
unfoldable pub deserialize_request : Bytes → Outcome ((ℕ × ℕ) × Bytes)
unfolding get_remaining
deserialize_request bytes = do
  (header, d) ← deserialize_simple (simple_header channel_encrypt_request) bytes
  (version, d') ← get_int 4 d
  (universe, d'') ← get_int 4 d'
  ok ((version, universe), if leb 16 (length d'') then (get_remaining d'').0 else [])

-- MsgChannelEncryptResponse with its header
unfoldable pub serialize_response : (blob : Bytes) → (crc : ℕ) → Bytes
serialize_response blob crc =
    let (_, s) = serialize_simple (simple_header channel_encrypt_response) empty in
    let (_, s₁) = store_int 4 encryption_protocol_version s in
    let (_, s₂) = store_int 4 128 s₁ in
    let (_, s₃) = store_bytes blob s₂ in
    let (_, s₄) = store_int 4 crc s₃ in let (_, s₅) = store_int 4 0 s₄ in s₅.result

-- MsgChannelEncryptResult
unfoldable pub deserialize_result : Bytes → Outcome ℕ
deserialize_result bytes = do
  (header, d) ← deserialize_simple (simple_header channel_encrypt_result) bytes
  (result, d') ← get_int 4 d
  ok result

unfoldable pub make_engine : (challenge : Bytes) → (key : Bytes) → Engine
make_engine [] key = aes key
make_engine (x ∷ xs) key = aes_hmac key

abbrev pub has_engine : Option Engine → Bool
has_engine none = false
has_engine (some e) = true

module _ (lib : OpenSsl) where
  -- The response, with the key and the challenge encrypted.
  unfoldable pub make_response : (key challenge : Bytes) → Outcome Bytes
  unfolding serialize_response rsa_encrypt
  make_response key challenge = do
    blob ← rsa_encrypt lib (key ++ challenge)
    ok (serialize_response blob (lib.crc_32 blob))

  -- handleEncryptRequest; the key is what `makeRandomBytes` returns.
  unfoldable pub handle_encrypt_request : (key : Bytes) → Bytes → Encrypted → Outcome Encrypted
  unfolding make_engine deserialize_request make_response transmit
  handle_encrypt_request key bytes s = do
    ((version, universe), challenge) ← deserialize_request bytes
    _ ← assert (version == encryption_protocol_version)
    _ ← assert (universe == universe_public)
    response ← make_response key challenge
    _ ← assert (not (has_engine s.encryption_engine))
    ok (
        transmit response (record s {
          encryption_engine = some (make_engine challenge key);
          encryption_state = challenged;
        }))

  -- handleEncryptResult
  unfoldable pub handle_encrypt_result : Bytes → Encrypted → Outcome Encrypted
  unfolding deserialize_result
  handle_encrypt_result bytes s = do
    result ← deserialize_result bytes
    if result == result_ok
        then (assert (not (is_encrypting s.encryption_state))
            >> ok (record s { encryption_state = encrypting }))
        else threw encryption_failed

  -- What the loop of `establishEncryption` does with a packet of some type.
  unfoldable pub dispatch : (key : Bytes) → ℕ → Bytes → Encrypted → Outcome Encrypted
  unfolding handle_encrypt_request handle_encrypt_result
  dispatch key msg_type bytes s = elim s.encryption_state [
    | not_encrypted ↦
        if msg_type == channel_encrypt_request then handle_encrypt_request key bytes s else ok s
    | challenged ↦
        if msg_type == channel_encrypt_result then handle_encrypt_result bytes s else ok s
    | encrypting ↦ ok s
  ]

  -- The loop, for the packets that come in.
  unfoldable pub establish : (key : Bytes) → List Bytes → Encrypted → Outcome Encrypted
  unfolding dispatch
  establish key [] s =
      if is_encrypting s.encryption_state
      then ok (record s { incoming = [] })
      else threw connection_error
  establish key (bytes ∷ rest) s =
      if is_encrypting s.encryption_state
      then ok (record s { incoming = bytes ∷ rest })
      else (peek_message_type bytes >>= λ msg_type.
          dispatch key msg_type bytes s >>= λ s'. establish key rest s')

  -- establishEncryption
  unfoldable pub establish_encryption : (key : Bytes) → Encrypted → Outcome Encrypted
  unfolding establish
  establish_encryption key s = establish key s.incoming s

  -- Without an engine, a null pointer is dereferenced.
  unfoldable pub read_packet : Encrypted → Outcome (Bytes × Encrypted)
  unfolding receive decrypt
  read_packet s = do
    _ ← assert (is_encrypting s.encryption_state)
    (bytes, s') ← receive s
    elim s'.encryption_engine [
      | none ↦ aborted
      | some e ↦ decrypt lib e bytes >>= λ plaintext. ok (plaintext, s')
    ]

  unfoldable pub write_packet : (random : ℕ → Bytes) → Bytes → Encrypted → Outcome Encrypted
  unfolding transmit encrypt
  write_packet random bytes s = do
    _ ← assert (is_encrypting s.encryption_state)
    elim s.encryption_engine [
      | none ↦ aborted
      | some e ↦ encrypt lib e random bytes >>= λ packet. ok (transmit packet s)
    ]
