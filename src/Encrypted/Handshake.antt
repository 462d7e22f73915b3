-- ===== src/Encrypted/Handshake.antt =====
-- The course of the handshake.
use christians_steam_framewo.Base.{
  ℕ, ◌^◌, ◌<◌, true, false, List, [], ◌∷◌, ◌++◌, append-nil, Option, none, some, Bytes, ok, threw,
  Outcome, aborted, out_of_fuel, ◌>>=◌, encryption_failed, if◌then◌else◌, leb, ◌==◌, length,
  to_little, ◌≡◌, refl, sym, ap, ◌∙◌, Bool-cases, inl, inr, arith,
}
use christians_steam_framewo.Wire.{get_int, get_remaining}
use christians_steam_framewo.Wire.Laws.{get_int-append}
use christians_steam_framewo.Message.{
  serialize_simple, deserialize_simple, peek_message_type, empty,
}
use christians_steam_framewo.Message.RoundTrip.{
  deserialize-serialize_simple, peek_message_type-serialize_simple,
}
use christians_steam_framewo.Ciphers.{OpenSsl, Engine}
use christians_steam_framewo.Encrypted.{
  Encrypted, EncryptionState, not_encrypted, challenged, encrypting, simple_header,
  channel_encrypt_request, channel_encrypt_result, result_ok, transmit, deserialize_request,
  deserialize_result, is_encrypting, make_engine, make_response, handle_encrypt_request,
  handle_encrypt_result, dispatch, establish, establish_encryption,
}

-- A packet of some type, with a simple header as it is made and some content.
abbrev pub packet_of : ℕ → Bytes → Bytes
packet_of msg_type content = (serialize_simple (simple_header msg_type) empty).1.result ++ content

-- The request of a server for protocol version 1 and the public universe, with a challenge.
abbrev pub request : Bytes → Bytes
request challenge =
    packet_of channel_encrypt_request (to_little 4 1 ++ (to_little 4 1 ++ challenge))

-- Its result.
abbrev pub result : ℕ → Bytes
result code = packet_of channel_encrypt_result (to_little 4 code)

-- A packet of another type than the one that is waited for.
abbrev pub Other : ℕ → Bytes → Type 0
Other msg_type bytes = (t : ℕ) × (peek_message_type bytes ≡ ok t) × ((t == msg_type) ≡ false)

abbrev pub Others : ℕ → List Bytes → Type 0
Others msg_type [] = Unit
Others msg_type (bytes ∷ rest) = Other msg_type bytes × Others msg_type rest

-- What is taken of a challenge: all of it, if it has 16 bytes or more, and else nothing.
abbrev pub taken : Bytes → Bytes
taken challenge = if leb 16 (length challenge) then challenge else []

deserialize-packet_of :
    (t : ℕ) (content : Bytes)
    → t < 2 ^ 31
    → deserialize_simple (simple_header t) (packet_of t content) ≡ ok (simple_header t, content)
deserialize-packet_of t content h =
    (deserialize-serialize_simple (simple_header t) (simple_header t) content h
      (omega arith, (omega arith, tt)) (inl refl)).2

deserialize_request-request :
    (challenge : Bytes) → deserialize_request (request challenge) ≡ ok ((1, 1), taken challenge)
unfolding deserialize_request get_remaining
deserialize_request-request challenge =
    rw
      (deserialize-packet_of channel_encrypt_request (to_little 4 1 ++ (to_little 4 1 ++ challenge))
        (omega arith))
      (rw (get_int-append 4 1 (to_little 4 1 ++ challenge) (omega arith))
        (rw (get_int-append 4 1 challenge (omega arith)) refl))

deserialize_result-result : (code : ℕ) → code < 2 ^ 32 → deserialize_result (result code) ≡ ok code
unfolding deserialize_result
deserialize_result-result code h =
    rw (deserialize-packet_of channel_encrypt_result (to_little 4 code) (omega arith)) (
      rw (ap (get_int 4) (sym (append-nil (to_little 4 code))))
        (rw (get_int-append 4 code [] (omega arith)) refl))

-- The type of such a packet.
pub peek-packet_of :
    (t : ℕ) (content : Bytes) → t < 2 ^ 31 → peek_message_type (packet_of t content) ≡ ok t
peek-packet_of t content h = peek_message_type-serialize_simple (simple_header t) content h

-- The type that is waited for; not for one that has an established encryption.
abbrev pub awaited : EncryptionState → ℕ
awaited not_encrypted = channel_encrypt_request
awaited _ = channel_encrypt_result

module _ (lib : OpenSsl) (key : Bytes) where
  dispatch-other :
      (t : ℕ) (bytes : Bytes) (e : Option Engine) (st : EncryptionState)
      (incoming sent : List Bytes)
      → (t == awaited st) ≡ false
      → dispatch lib key t bytes (record {
        encryption_engine = e;
        encryption_state = st;
        incoming = incoming;
        sent = sent;
      })
        ≡ ok (record {
          encryption_engine = e;
          encryption_state = st;
          incoming = incoming;
          sent = sent;
        })
  unfolding dispatch
  dispatch-other t bytes e not_encrypted incoming sent h = rw h
  dispatch-other t bytes e challenged incoming sent h = rw h
  dispatch-other t bytes e encrypting incoming sent h = refl

  -- While the encryption is not established, packets of other types than the awaited one have no effect.
  establish-ignored :
      (s : Encrypted) (junk rest : List Bytes)
      → is_encrypting s.encryption_state ≡ false
      → Others (awaited s.encryption_state) junk
      → establish lib key (junk ++ rest) s ≡ establish lib key rest s
  unfolding establish
  establish-ignored s [] rest h o = refl
  establish-ignored s (bytes ∷ junk) rest h ((t, p, other), o) = rw h (
      rw p (
        rw (dispatch-other t bytes s.encryption_engine s.encryption_state s.incoming s.sent other)
          (establish-ignored s junk rest h o)))

-- A connection as it is made, for what comes in and what has been sent.
abbrev pub fresh : (incoming sent : List Bytes) → Encrypted
fresh incoming sent = record {
  encryption_engine = none;
  encryption_state = not_encrypted;
  incoming = incoming;
  sent = sent;
}

-- A connection after a response.
abbrev pub responded :
    (key challenge response : Bytes) → EncryptionState → (incoming sent : List Bytes) → Encrypted
responded key challenge response st incoming sent = record {
  encryption_engine = some (make_engine challenge key);
  encryption_state = st;
  incoming = incoming;
  sent = sent ++ response ∷ [];
}

bind_assoc {ℓ} :
    {A B C : Type ℓ} (m : Outcome A) (f : A → Outcome B) (g : B → Outcome C)
    → (m >>= f >>= g) ≡ (m >>= λ a. f a >>= g)
bind_assoc (ok a) f g = refl
bind_assoc (threw e) f g = refl
bind_assoc aborted f g = refl
bind_assoc out_of_fuel f g = refl

module _ (lib : OpenSsl) (key : Bytes) where
  establish-request :
      (challenge : Bytes) (incoming rest sent : List Bytes)
      → establish lib key (request challenge ∷ rest) (fresh incoming sent) ≡ (
          make_response lib key (taken challenge) >>= λ response.
          establish lib key rest
            (responded key (taken challenge) response challenged incoming sent))
  unfolding establish dispatch handle_encrypt_request transmit
  establish-request challenge incoming rest sent =
      rw (peek-packet_of channel_encrypt_request _ (omega arith)) (
        rw (deserialize_request-request challenge)
          (bind_assoc (make_response lib key (taken challenge)) _ (establish lib key rest)))

  pub establish-encrypting :
      (rest : List Bytes) (s : Encrypted)
      → is_encrypting s.encryption_state ≡ true
      → establish lib key rest s ≡ ok (record s { incoming = rest })
  unfolding establish
  establish-encrypting [] s h = rw h refl
  establish-encrypting (bytes ∷ rest) s h = rw h refl

  establish-result :
      (challenge response : Bytes) (code : ℕ) (incoming rest sent : List Bytes)
      → code < 2 ^ 32
      → establish lib key
          (result code ∷ rest)
          (responded key challenge response challenged incoming sent)
        ≡ (if code == result_ok
            then ok (responded key challenge response encrypting rest sent)
            else threw encryption_failed)
  unfolding establish dispatch handle_encrypt_result
  establish-result challenge response code incoming rest sent h =
      rw (peek-packet_of channel_encrypt_result (to_little 4 code) (omega arith)) (
        rw (deserialize_result-result code h) (elim (Bool-cases (code == result_ok)) [
          | inl is ↦ rw is (
              establish-encrypting rest (responded key challenge response encrypting incoming sent)
                refl)
          | inr is ↦ rw is refl
        ]))

  pub establish-handshake :
      (challenge : Bytes) (code : ℕ) (junk junk' rest sent : List Bytes)
      → code < 2 ^ 32
      → Others channel_encrypt_request junk
      → Others channel_encrypt_result junk'
      → establish_encryption lib key
          (fresh (junk ++ request challenge ∷ (junk' ++ result code ∷ rest)) sent)
        ≡ (make_response lib key (taken challenge) >>= λ response.
            if code == result_ok
            then ok (responded key (taken challenge) response encrypting rest sent)
            else threw encryption_failed)
  unfolding establish_encryption
  establish-handshake challenge code junk junk' rest sent h o o' =
      let incoming : List Bytes = junk ++ request challenge ∷ (junk' ++ result code ∷ rest) in
      let after : (response : Bytes)
          → establish lib key (junk' ++ result code ∷ rest)
              (responded key (taken challenge) response challenged incoming sent)
            ≡ (if code == result_ok
                then ok (responded key (taken challenge) response encrypting rest sent)
                else threw encryption_failed) =
        λ response.
          establish-ignored lib key
            (responded key (taken challenge) response challenged incoming sent) junk' _ refl o'
          ∙ establish-result (taken challenge) response code incoming rest sent h in
      establish-ignored lib key (fresh incoming sent) junk _ refl o
      ∙ (establish-request challenge incoming _ sent ∙ λ i.
          make_response lib key (taken challenge) >>= λ response. after response i)
