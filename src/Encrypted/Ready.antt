-- ===== src/Encrypted/Ready.antt =====
-- What an established encryption has, whatever packets come in.
use christians_steam_framewo.Base.{
  ℕ, List, [], ◌∷◌, Bytes, Outcome, ok, threw, aborted, out_of_fuel, ◌>>=◌, assert,
  encryption_failed, ◌==◌, ◌≡◌, ◌⊎◌, refl, sym, ◌∙◌, inl, inr, Bool-cases,
}
use christians_steam_framewo.Message.{peek_message_type}
use christians_steam_framewo.Ciphers.{OpenSsl}
use christians_steam_framewo.Encrypted.{
  Encrypted, challenged, encrypting, channel_encrypt_request, channel_encrypt_result, result_ok,
  universe_public, encryption_protocol_version, deserialize_request, deserialize_result,
  handle_encrypt_request, handle_encrypt_result, transmit, make_response, dispatch, establish,
  establish_encryption,
}
use christians_steam_framewo.Encrypted.Handshake.{fresh, responded, establish-encrypting}

-- What a sequence returns is what its last part returns.
bind-ok {ℓ κ} :
    {A : Type ℓ} {B : Type κ} (m : Outcome A) (next : A → Outcome B) (b : B)
    → (m >>= next) ≡ ok b
    → (a : A) × (m ≡ ok a) × (next a ≡ ok b)
bind-ok (ok a) next b h = (a, refl, h)
bind-ok (threw e) next b h = cc
bind-ok aborted next b h = cc
bind-ok out_of_fuel next b h = cc

module _ (lib : OpenSsl) (key : Bytes) where
  -- The response to a challenge was made.
  Made : (challenge response : Bytes) → Type 0
  Made challenge response = make_response lib key challenge ≡ ok response

  handle_encrypt_request-responded :
      (bytes : Bytes) (incoming sent : List Bytes) (s' : Encrypted)
      → handle_encrypt_request lib key bytes (fresh incoming sent) ≡ ok s'
      → (challenge : Bytes) × (response : Bytes) × Made challenge response
        × (s' ≡ responded key challenge response challenged incoming sent)
  unfolding handle_encrypt_request transmit Made
  handle_encrypt_request-responded bytes incoming sent s' h =
      let (((version, universe), challenge), d, h₁) = bind-ok (deserialize_request bytes) _ s' h in
      let (u, v, h₂) = bind-ok (assert (version == encryption_protocol_version)) _ s' h₁ in
      let (u', v', h₃) = bind-ok (assert (universe == universe_public)) _ s' h₂ in
      let (response, made, h₄) = bind-ok (make_response lib key challenge) _ s' h₃ in
      (challenge, response, made, cc)

  dispatch-fresh :
      (t : ℕ) (bytes : Bytes) (incoming sent : List Bytes) (s' : Encrypted)
      → dispatch lib key t bytes (fresh incoming sent) ≡ ok s'
      → (s' ≡ fresh incoming sent)
        ⊎ ((challenge : Bytes) × (response : Bytes) × Made challenge response
            × (s' ≡ responded key challenge response challenged incoming sent))
  unfolding dispatch
  dispatch-fresh t bytes incoming sent s' h = elim (Bool-cases (t == channel_encrypt_request)) [
    | inl is ↦ inr (handle_encrypt_request-responded bytes incoming sent s' (rw is at h))
    | inr is ↦ let same : ok (fresh incoming sent) ≡ ok s' = rw is at h in inl cc
  ]

  handle_encrypt_result-encrypting :
      (bytes challenge response : Bytes) (incoming sent : List Bytes) (s' : Encrypted)
      → handle_encrypt_result lib bytes (responded key challenge response challenged incoming sent)
        ≡ ok s'
      → s' ≡ responded key challenge response encrypting incoming sent
  unfolding handle_encrypt_result
  handle_encrypt_result-encrypting bytes challenge response incoming sent s' h =
      let (code, d, h₁) = bind-ok (deserialize_result bytes) _ s' h in
      elim (Bool-cases (code == result_ok)) [
        | inl is ↦
            let same : ok (responded key challenge response encrypting incoming sent) ≡ ok s' =
              rw is at h₁ in
            cc
        | inr is ↦ let failed : threw encryption_failed ≡ ok s' = rw is at h₁ in cc
      ]

  dispatch-challenged :
      (t : ℕ) (bytes challenge response : Bytes) (incoming sent : List Bytes) (s' : Encrypted)
      → dispatch lib key t bytes (responded key challenge response challenged incoming sent) ≡ ok s'
      → (s' ≡ responded key challenge response challenged incoming sent)
        ⊎ (s' ≡ responded key challenge response encrypting incoming sent)
  unfolding dispatch
  dispatch-challenged t bytes challenge response incoming sent s' h =
      elim (Bool-cases (t == channel_encrypt_result)) [
        | inl is ↦ inr (
            handle_encrypt_result-encrypting bytes challenge response incoming sent s' (rw is at h))
        | inr is ↦
            let same : ok (responded key challenge response challenged incoming sent) ≡ ok s' =
              rw is at h in
            inl cc
      ]

  establish-challenged :
      (packets : List Bytes) (challenge response : Bytes) (incoming sent : List Bytes)
      (s' : Encrypted)
      → establish lib key packets (responded key challenge response challenged incoming sent)
        ≡ ok s'
      → (rest : List Bytes) × (s' ≡ responded key challenge response encrypting rest sent)
  unfolding establish
  establish-challenged [] challenge response incoming sent s' h = cc
  establish-challenged (bytes ∷ packets) challenge response incoming sent s' h =
      let (t, p, h₁) = bind-ok (peek_message_type bytes) _ s' h in
      let (s₁, d, h₂) =
        bind-ok
          (dispatch lib key t bytes (responded key challenge response challenged incoming sent))
          (establish lib key packets) s' h₁ in
      elim (dispatch-challenged t bytes challenge response incoming sent s₁ d) [
        | inl same ↦
            establish-challenged packets challenge response incoming sent s' (rw same at h₂)
        | inr same ↦
            let after : ok (responded key challenge response encrypting packets sent) ≡ ok s' =
              sym (establish-encrypting lib key packets _ refl) ∙ (rw same at h₂) in
            (packets, cc)
      ]

  establish-fresh :
      (packets incoming sent : List Bytes) (s' : Encrypted)
      → establish lib key packets (fresh incoming sent) ≡ ok s'
      → (challenge : Bytes) × (response : Bytes) × (rest : List Bytes) × Made challenge response
        × (s' ≡ responded key challenge response encrypting rest sent)
  unfolding establish
  establish-fresh [] incoming sent s' h = cc
  establish-fresh (bytes ∷ packets) incoming sent s' h =
      let (t, p, h₁) = bind-ok (peek_message_type bytes) _ s' h in
      let (s₁, d, h₂) =
        bind-ok (dispatch lib key t bytes (fresh incoming sent)) (establish lib key packets) s'
          h₁ in
      elim (dispatch-fresh t bytes incoming sent s₁ d) [
        | inl same ↦ establish-fresh packets incoming sent s' (rw same at h₂)
        | inr (challenge, response, made, same) ↦
            let (rest, after) =
              establish-challenged packets challenge response incoming sent s' (rw same at h₂) in
            (challenge, response, rest, made, after)
      ]

  -- If the setup of a new connection returns, whatever packets came in, then exactly one packet was
  -- sent, the response that was made to some challenge, the connection is encrypting, and it has the
  -- engine of that challenge and of the key.
  pub establish_encryption-ready :
      (incoming sent : List Bytes) (s' : Encrypted)
      → establish_encryption lib key (fresh incoming sent) ≡ ok s'
      → (challenge : Bytes) × (response : Bytes) × (rest : List Bytes) × (make_response lib key
            challenge
          ≡ ok response)
        × (s' ≡ responded key challenge response encrypting rest sent)
  unfolding establish_encryption Made
  establish_encryption-ready incoming sent s' h = establish-fresh incoming incoming sent s' h
