-- ===== src/Message.antt =====
-- Headers/Connection/Message.hpp and Sources/Connection/Message.cpp: the message headers on the
-- wire, and a message with protobuf content. The session data that `addSessionInfo` puts into a
-- protobuf header when it is made is part of the header's value here.
pub mod RoundTrip
use christians_steam_framewo.Base.{
  ℕ, ◌+◌, ◌-◌, ◌%◌, ◌^◌, Bool, true, false, List, [], ◌∷◌, Bytes, Outcome, ok, ◌>>=◌, ◌>>◌, assert,
  if◌then◌else◌, ltb, leb, ◌==◌, length,
}
use christians_steam_framewo.Wire.{
  Serializer, Stored, store_int, store_all, get_int, get_all, Protobuf, store_proto, get_proto,
}

abbrev pub flag : ℕ
flag = 2 ^ 31

-- A serializer as it is made.
abbrev pub empty : Serializer
empty = record { no_logging = false; result = [] }

-- value | protoBufFlag and value & ~protoBufFlag, on a uint32_t.
unfoldable pub with_flag : ℕ → ℕ
with_flag v = if ltb v flag then v + flag else v

unfoldable pub without_flag : ℕ → ℕ
without_flag v = v % flag

-- Type::Invalid and Type::ClientHeartBeat
abbrev pub invalid : ℕ
invalid = 0

abbrev pub client_heart_beat : ℕ
client_heart_beat = 703

-- Header::Base::serialize; the first argument is whether the header is a Header::ProtoBuf.
unfoldable pub serialize_base : Bool → ℕ → Serializer → Stored
unfolding with_flag
serialize_base proto msg_type s =
    store_int 4 (if proto then with_flag msg_type else msg_type)
      (record s { no_logging = msg_type == client_heart_beat })

-- Header::Base::deserialize for a header of type `msg_type`; a wrong flag is only logged.
unfoldable pub deserialize_base : ℕ → Bytes → Outcome (ℕ × Bytes)
unfolding without_flag
deserialize_base msg_type d = do
  (value, d') ← get_int 4 d
  if msg_type == invalid
      then ok (without_flag value, d')
      else (assert (without_flag value == msg_type) >> ok (msg_type, d'))

-- Header::Base::peekMessgeType
unfoldable pub peek_message_type : Bytes → Outcome ℕ
unfolding deserialize_base
peek_message_type message = do (msg_type, d) ← deserialize_base invalid message; ok msg_type

pub record Simple : Type 0 where
  pub msg_type : ℕ
  pub target_job_id : ℕ
  pub source_job_id : ℕ

abbrev pub simple_fields : Simple → List (ℕ × ℕ)
simple_fields h = (8, h.target_job_id) ∷ (8, h.source_job_id) ∷ []

unfoldable pub serialize_simple : Simple → Serializer → Stored
serialize_simple h s =
    let (n, s') = serialize_base false h.msg_type s in
    let (m, s'') = store_all (simple_fields h) s' in (n + m, s'')

-- The values that the variadic `get` assigns.
unfoldable pub set_simple : Simple → ℕ → List ℕ → Simple
set_simple h t (a ∷ b ∷ []) = record { msg_type = t; target_job_id = a; source_job_id = b }
set_simple h t _ = h

unfoldable pub deserialize_simple : Simple → Bytes → Outcome (Simple × Bytes)
unfolding set_simple
deserialize_simple h d = do
  (t, d') ← deserialize_base h.msg_type d
  (values, d'') ← get_all (8 ∷ 8 ∷ []) d'
  ok (set_simple h t values, d'')

pub record Extended : Type 0 where
  pub msg_type : ℕ
  pub header_size : ℕ
  pub header_version : ℕ
  pub target_job_id : ℕ
  pub source_job_id : ℕ
  pub header_canary : ℕ
  pub steam_id : ℕ
  pub session_id : ℕ

-- The constructor: the default member values.
unfoldable pub make_extended : ℕ → Extended
make_extended t = record {
  msg_type = t;
  header_size = 36;
  header_version = 2;
  target_job_id = 2 ^ 64 - 1;
  source_job_id = 2 ^ 64 - 1;
  header_canary = 239;
  steam_id = 0;
  session_id = 0;
}

abbrev pub extended_fields : Extended → List (ℕ × ℕ)
extended_fields h =
    (2, h.header_version)
    ∷ (8, h.target_job_id)
    ∷ (8, h.source_job_id)
    ∷ (1, h.header_canary)
    ∷ (8, h.steam_id)
    ∷ (4, h.session_id)
    ∷ []

unfoldable pub serialize_extended : Extended → Serializer → Stored
serialize_extended h s =
    let (n, s') = serialize_base false h.msg_type s in
    let (m, s'') = store_all (extended_fields h) s' in (n + m, s'')

unfoldable pub set_extended : Extended → ℕ → List ℕ → Extended
set_extended h t (v ∷ a ∷ b ∷ c ∷ i ∷ n ∷ []) = record h {
  msg_type = t;
  header_version = v;
  target_job_id = a;
  source_job_id = b;
  header_canary = c;
  steam_id = i;
  session_id = n;
}
set_extended h t _ = h

unfoldable pub deserialize_extended : Extended → Bytes → Outcome (Extended × Bytes)
unfolding set_extended
deserialize_extended h d = do
  (t, d') ← deserialize_base h.msg_type d
  (values, d'') ← get_all (2 ∷ 8 ∷ 8 ∷ 1 ∷ 8 ∷ 4 ∷ []) d'
  ok (set_extended h t values, d'')

-- Header::ProtoBuf, as the type and the protobuf header.
unfoldable pub serialize_header : (p : Protobuf) → ℕ → p.Proto → Serializer → Outcome Stored
serialize_header p msg_type proto s =
    let (n, s') = serialize_base true msg_type s in
    let (m, s'') = store_int 4 (length (p.encode proto) % 2 ^ 32) s' in
    store_proto p proto s'' >>= λ (k, s₃). ok (n + m + k, s₃)

unfoldable pub deserialize_header : (p : Protobuf) → ℕ → Bytes → Outcome ((ℕ × p.Proto) × Bytes)
deserialize_header p msg_type d = do
  (t, d') ← deserialize_base msg_type d
  (size, d'') ← get_int 4 d'
  (proto, d₃) ← get_proto p size d''
  ok ((t, proto), d₃)

-- Message::serialize and Message::deserialize with a Header::ProtoBuf and protobuf content.
unfoldable pub serialize_message :
    (p q : Protobuf) → ℕ → p.Proto → q.Proto → Serializer → Outcome Stored
serialize_message p q msg_type header content s = do
  (n, s') ← serialize_header p msg_type header s
  (m, s'') ← store_proto q content s'
  ok (n + m, s'')

unfoldable pub deserialize_message :
    (p q : Protobuf) → ℕ → Bytes → Outcome (((ℕ × p.Proto) × q.Proto) × Bytes)
deserialize_message p q msg_type d = do
  (header, d') ← deserialize_header p msg_type d
  (content, d'') ← get_proto q (length d') d'
  ok ((header, content), d'')
