-- ===== src/MultiPacket/Total.antt =====
-- The loop of `MultiPacketModule::handle` ends.
use christians_steam_framewo.Base.{
  ℕ, zero, suc, ◌<◌, [], ◌∷◌, Bytes, none, some, Outcome, aborted, ◌>>=◌, ok, threw, out_of_fuel,
  not_enough_data, ltb, length, length-drop, take, drop, from_little, Option-cases, ◌≡◌, ◌≢◌, ◌⊎◌,
  refl, arith, Bool-cases, inl, inr,
}
use christians_steam_framewo.Wire.{get_int, get_bytes}
use christians_steam_framewo.Message.{peek_message_type, deserialize_base, without_flag}
use christians_steam_framewo.MultiPacket.Unpack.{NotZipped, payload-NotZipped}
use christians_steam_framewo.MultiPacket.{
  Client, Message, Ended, on_handled, handle_packet, on_size, on_bytes, unpack, handle,
}

get_bytes-cases :
    (n : ℕ) (d : Bytes)
    → (get_bytes n d ≡ threw not_enough_data) ⊎ (get_bytes n d ≡ ok (take n d, drop n d))
unfolding get_bytes
get_bytes-cases n d = elim (Bool-cases (ltb (length d) n)) [
  | inl e ↦ inl (rw e)
  | inr e ↦ inr (rw e)
]

get_int-cases :
    (n : ℕ) (d : Bytes)
    → (get_int n d ≡ threw not_enough_data) ⊎ ((v : ℕ) × (get_int n d ≡ ok (v, drop n d)))
unfolding get_int
get_int-cases n d = elim (get_bytes-cases n d) [
  | inl e ↦ inl (rw e)
  | inr e ↦ inr (from_little (take n d), rw e)
]

bind-ne-out_of_fuel {ℓ} :
    {A B : Type ℓ} (m : Outcome A) (next : A → Outcome B)
    → m ≢ out_of_fuel
    → ((a : A) → next a ≢ out_of_fuel)
    → (m >>= next) ≢ out_of_fuel
bind-ne-out_of_fuel (ok a) next h k = k a
bind-ne-out_of_fuel (threw e) next h k = cc
bind-ne-out_of_fuel aborted next h k = cc
bind-ne-out_of_fuel out_of_fuel next h k = absurd (h refl)

-- The next round ends on what is below a length.
abbrev EndsBelow : (c : Client) → ℕ → (Bytes → c.State → Outcome (Ended c)) → Type 0
EndsBelow c l again = (d : Bytes) (s : c.State) → length d < l → again d s ≢ out_of_fuel

on_handled_total :
    (c : Client) (l : ℕ) (again : Bytes → c.State → Outcome (Ended c)) (d : Bytes) (r : Ended c)
    → EndsBelow c l again
    → length d < l
    → on_handled c again d r ≢ out_of_fuel
unfolding on_handled
on_handled_total c l again d (s, none) h b = h d s b
on_handled_total c l again d (s, some e) h b = cc

handle_packet_total :
    (c : Client) (bytes : Bytes) (s : c.State) → handle_packet c bytes s ≢ out_of_fuel
unfolding handle_packet peek_message_type deserialize_base
handle_packet_total c bytes s = elim (get_int-cases 4 bytes) [
  | inl e ↦ rw (e, handle_packet) (cc)
  | inr (v, e) ↦ elim (Option-cases (c.handlers (without_flag v))) [
    | inl n ↦ rw (e, handle_packet) (rw n (cc))
    | inr (handler, n) ↦ elim (Option-cases (handler bytes s)) [
      | inl f ↦ rw (e, handle_packet) (rw n (rw f (cc)))
      | inr (r, f) ↦ rw (e, handle_packet) (rw n (rw f (cc)))
    ]
  ]
]

on_size_total :
    (c : Client) (l size : ℕ) (again : Bytes → c.State → Outcome (Ended c)) (d : Bytes)
    (s : c.State)
    → EndsBelow c l again
    → length d < l
    → on_size c again (ok (size, d)) s ≢ out_of_fuel
unfolding on_size on_bytes
on_size_total c l size again d s h b = elim (Bool-cases (ltb 0 size)) [
  | inr e ↦ rw e (h d s b)
  | inl e ↦ rw e (elim (get_bytes-cases size d) [
    | inl x ↦ rw x (cc)
    | inr x ↦ rw x (
        bind-ne-out_of_fuel (handle_packet c (take size d) s) (on_handled c again (drop size d))
          (handle_packet_total c (take size d) s)
          λ r. on_handled_total c l again (drop size d) r h (omega (arith, length-drop size d)))
  ])
]

unpack-ne-out_of_fuel :
    (c : Client) (f : ℕ) (bytes : Bytes) (s : c.State)
    → length bytes < f
    → unpack c f bytes s ≢ out_of_fuel
unfolding unpack
unpack-ne-out_of_fuel c zero bytes s l = absurd (omega arith)
unpack-ne-out_of_fuel c (suc f) [] s l = cc
unpack-ne-out_of_fuel c (suc f) (b ∷ bytes) s l = elim (get_int-cases 4 (b ∷ bytes)) [
  | inl e ↦ rw e (unfold on_size in cc)
  | inr (v, e) ↦ rw e (
      on_size_total c f v (unpack c f) (drop 4 (b ∷ bytes)) s (unpack-ne-out_of_fuel c f)
        (omega (arith, length-drop 4 (b ∷ bytes))))
]

-- The handler of a message that is not zipped never runs out of its fuel, which is one more than the
-- bytes of the payload, whatever the handlers of the packets do.
pub handle-total :
    (c : Client) (m : Message) (s : c.State)
    → NotZipped m.size_unzipped
    → handle c m s ≢ out_of_fuel
unfolding handle
handle-total c m s z = elim (Option-cases m.body) [
  | inl e ↦ rw (e, handle) (λ x. cc)
  | inr (bytes, e) ↦
      rw (e, handle)
        (rw (payload-NotZipped c bytes m.size_unzipped z)
          (unpack-ne-out_of_fuel c (suc (length bytes)) bytes s (omega arith)))
]
