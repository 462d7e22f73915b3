-- ===== src/MultiPacket.antt =====
-- Sources/Modules/MultiPacket.cpp: a packet that holds packets, each behind its length; and
-- `handlePacket` of Sources/Modules/Connection.cpp, to which each of them is given. The handlers that
-- the other modules add to the connection module, and the gzip filter, are parameters.
pub mod Unpack
pub mod Total
use christians_steam_framewo.Base.{
  ℕ, zero, suc, Bool, true, false, List, [], ◌∷◌, Bytes, Option, none, some, Outcome, ok, threw,
  aborted, out_of_fuel, ◌>>=◌, assert, Exception, not_enough_data, if◌then◌else◌, ltb, ◌==◌, length,
}
use christians_steam_framewo.Wire.{get_int, get_bytes}
use christians_steam_framewo.Message.{peek_message_type}

-- The state that handlers change; the handlers by message type, each of which may throw, and then its
-- effects until then stay, or fail an assertion (`none`); and the gzip filter.
pub record Client : Type 1 where
  pub State : Type 0
  pub handlers : ℕ → Option (Bytes → State → Option (State × Option Exception))
  pub gunzip : Bytes → Outcome Bytes

pub record Message : Type 0 where
  pub body : Option Bytes
  pub size_unzipped : Option ℕ

-- How the loop ends: the state, and the exception that leaves it, if any.
abbrev pub Ended : Client → Type 0
Ended c = c.State × Option Exception

-- Connection::handlePacket. A message of a type without a handler is ignored.
unfoldable pub handle_packet : (c : Client) → Bytes → c.State → Outcome (Ended c)
unfolding peek_message_type
handle_packet c bytes s = elim (peek_message_type bytes) [
  | ok message_type ↦ elim (c.handlers message_type) [
    | none ↦ ok (s, none)
    | some handler ↦ elim (handler bytes s) [ none ↦ aborted | some r ↦ ok r ]
  ]
  | threw e ↦ ok (s, some e)
  | aborted ↦ aborted
  | out_of_fuel ↦ out_of_fuel
]

-- The handler of the `try`: only NotEnoughDataException is caught.
unfoldable pub stopped : (c : Client) → c.State → Exception → Ended c
stopped c s not_enough_data = (s, none)
stopped c s e = (s, some e)

-- The body of the loop, from its last step to its first; `again` is the next round.
unfoldable pub on_handled :
    (c : Client) → (Bytes → c.State → Outcome (Ended c)) → Bytes → Ended c → Outcome (Ended c)
unfolding stopped
on_handled c again d (s, none) = again d s
on_handled c again d (s, some e) = ok (stopped c s e)

unfoldable pub on_bytes :
    (c : Client)
    → (Bytes → c.State → Outcome (Ended c))
    → Outcome (Bytes × Bytes)
    → c.State
    → Outcome (Ended c)
unfolding on_handled handle_packet
on_bytes c again (ok (sub_bytes, d)) s = handle_packet c sub_bytes s >>= on_handled c again d
on_bytes c again (threw e) s = ok (stopped c s e)
on_bytes c again aborted s = aborted
on_bytes c again out_of_fuel s = out_of_fuel

unfoldable pub on_size :
    (c : Client)
    → (Bytes → c.State → Outcome (Ended c))
    → Outcome (ℕ × Bytes)
    → c.State
    → Outcome (Ended c)
unfolding on_bytes
on_size c again (ok (size, d)) s =
    if ltb 0 size then on_bytes c again (get_bytes size d) s else again d s
on_size c again (threw e) s = ok (stopped c s e)
on_size c again aborted s = aborted
on_size c again out_of_fuel s = out_of_fuel

-- The loop, with fuel above the number of bytes.
unfoldable pub unpack : (c : Client) → ℕ → Bytes → c.State → Outcome (Ended c)
unfolding on_size
unpack c zero bytes s = out_of_fuel
unpack c (suc f) [] s = ok (s, none)
unpack c (suc f) (b ∷ bytes) s = on_size c (unpack c f) (get_int 4 (b ∷ bytes)) s

-- The payload of a message: unzipped if it has a size other than zero, and then of that size.
unfoldable pub payload : Client → Bytes → Option ℕ → Outcome Bytes
payload c body none = ok body
payload c body (some size) = elim (ltb 0 size) [
  | false ↦ ok body
  | true ↦ c.gunzip body >>= λ unzipped. assert (length unzipped == size) >>= λ _. ok unzipped
]

unfoldable pub handle : (c : Client) → Message → c.State → Outcome (Ended c)
unfolding payload unpack
handle c m s = elim m.body [
  | none ↦ ok (s, none)
  | some body ↦ payload c body m.size_unzipped >>= λ bytes. unpack c (suc (length bytes)) bytes s
]
