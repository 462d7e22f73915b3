-- ===== src/MultiPacket/Unpack.antt =====
-- Which packets of a packet are handled, and that the loop ends.
use christians_steam_framewo.Base.{
  ℕ, zero, suc, ◌+◌, ◌^◌, ◌<◌, List, [], ◌∷◌, ◌++◌, Bytes, Option, none, some, Outcome, ok, lt→ltb,
  length, length-append, length-to_little, to_little, ◌≡◌, refl, ap, ◌∙◌, arith,
}
use christians_steam_framewo.Wire.{get_bytes}
use christians_steam_framewo.Wire.Laws.{get_int-append, get_bytes-append}
use christians_steam_framewo.MultiPacket.{
  Client, Message, Ended, stopped, on_size, on_bytes, unpack, payload, handle, handle_packet,
}

-- Packets with their lengths in front, and then `rest`.
unfoldable pub joined : List Bytes → Bytes → Bytes
joined [] rest = rest
joined (p ∷ ps) rest = to_little 4 (length p) ++ (p ++ joined ps rest)

-- Handling the packets that are not empty, one after the other, with no exception.
pub data Handles (c : Client) : List Bytes → c.State → c.State → Type 0 where
  done : {s : c.State} → Handles c [] s s
  empty : {ps : List Bytes} {s t : c.State} → Handles c ps s t → Handles c ([] ∷ ps) s t
  packet :
      {b : ℕ} {bs : Bytes} {ps : List Bytes} {s t u : c.State}
      → length (b ∷ bs) < 2 ^ 32
      → handle_packet c (b ∷ bs) s ≡ ok (t, none)
      → Handles c ps t u
      → Handles c ((b ∷ bs) ∷ ps) s u

-- One round of the loop.
unpack_cons :
    (c : Client) (f len : ℕ) (d : Bytes) (s : c.State)
    → len < 2 ^ 32
    → unpack c (suc f) (to_little 4 len ++ d) s ≡ on_size c (unpack c f) (ok (len, d)) s
unfolding unpack to_little
unpack_cons c f len d s h = ap (λ r. on_size c (unpack c f) r s) (get_int-append 4 len d h)

-- What stands behind the packets ends the loop, and changes nothing.
abbrev Stops : Client → Bytes → Type 0
Stops c rest = (g : ℕ) (s : c.State) → unpack c (suc g) rest s ≡ ok (s, none)

length-joined :
    (p : Bytes) (d : Bytes)
    → length (to_little 4 (length p) ++ (p ++ d)) ≡ 4 + (length p + length d)
length-joined p d = omega (
  arith,
  length-append (to_little 4 (length p)) (p ++ d),
  length-append p d,
  length-to_little 4 (length p),
)

on_size_empty :
    (c : Client) (again : Bytes → c.State → Outcome (Ended c)) (d : Bytes) (s : c.State)
    → on_size c again (ok (0, d)) s ≡ again d s
unfolding on_size
on_size_empty c again d s = refl

on_size_packet :
    (c : Client) (again : Bytes → c.State → Outcome (Ended c)) (p d : Bytes) (s t : c.State)
    → 0 < length p
    → handle_packet c p s ≡ ok (t, none)
    → on_size c again (ok (length p, p ++ d)) s ≡ again d t
unfolding on_size on_bytes
on_size_packet c again p d s t h e = rw (lt→ltb 0 (length p) h) (rw (get_bytes-append p d) (rw e))

unpack-joined :
    (c : Client) {ps : List Bytes} {s t : c.State} (rest : Bytes) (f : ℕ)
    → Stops c rest
    → Handles c ps s t
    → length (joined ps rest) < f
    → unpack c f (joined ps rest) s ≡ ok (t, none)
unfolding joined
unpack-joined c rest zero stop h l = absurd (omega arith)
unpack-joined c rest (suc f) stop done l = stop f _
unpack-joined c {s = s} rest (suc f) stop (empty {ps} h) l =
    unpack_cons c f 0 (joined ps rest) s (omega arith)
    ∙ on_size_empty c (unpack c f) (joined ps rest) s
    ∙ unpack-joined c rest f stop h (omega (arith, length-joined [] (joined ps rest)))
unpack-joined c {s = s} rest (suc f) stop (packet {b} {bs} {ps} {t = t} fits e h) l =
    let p = b ∷ bs in
    let d = joined ps rest in
    unpack_cons c f (length p) (p ++ d) s fits
    ∙ rw (on_size_packet c (unpack c f) p d s t (omega arith) e)
        (unpack-joined c rest f stop h (omega (arith, length-joined p d)))

Stops-end : (c : Client) → Stops c []
unfolding unpack
Stops-end c g s = refl

-- A length field that promises more than there is.
Stops-cut :
    (c : Client) (len : ℕ) (partial : Bytes)
    → len < 2 ^ 32
    → length partial < len
    → Stops c (to_little 4 len ++ partial)
unfolding on_size on_bytes get_bytes stopped
Stops-cut c len partial h l g s = unpack_cons c g len partial s h ∙ cut
  where
    cut : on_size c (unpack c g) (ok (len, partial)) s ≡ ok (s, none)
    cut = rw (lt→ltb 0 len (omega arith)) (rw (lt→ltb (length partial) len l))

-- There is no size when unzipped, or it is zero.
abbrev pub NotZipped : Option ℕ → Type 0
NotZipped none = Unit
NotZipped (some size) = size ≡ 0

pub payload-NotZipped :
    (c : Client) (body : Bytes) (size : Option ℕ) → NotZipped size → payload c body size ≡ ok body
unfolding payload
payload-NotZipped c body none h = refl
payload-NotZipped c body (some size) h = rw h refl

handle_body :
    (c : Client) (m : Message) (bytes : Bytes) (s t : c.State)
    → m.body ≡ some bytes
    → NotZipped m.size_unzipped
    → unpack c (suc (length bytes)) bytes s ≡ ok (t, none)
    → handle c m s ≡ ok (t, none)
unfolding handle
handle_body c m bytes s t e z h =
    rw (e, handle) (rw (payload-NotZipped c bytes m.size_unzipped z) (rw h))

-- A message of packets that are not zipped, each of fewer than 2 ^ 32 bytes, has the effect of
-- handling those that are not empty in order, if handling them throws nothing.
pub handle-joined :
    (c : Client) (m : Message) {ps : List Bytes} {s t : c.State}
    → m.body ≡ some (joined ps [])
    → NotZipped m.size_unzipped
    → Handles c ps s t
    → handle c m s ≡ ok (t, none)
handle-joined c m {ps} {s} {t} e z h =
    handle_body c m (joined ps []) s t e z
      (unpack-joined c [] (suc (length (joined ps []))) (Stops-end c) h (omega arith))

-- If such a message ends in a length below 2 ^ 32 with fewer bytes behind it, the packets before it
-- are handled all the same, if handling them throws nothing, and no exception leaves the handler.
pub handle-joined_cut :
    (c : Client) (m : Message) {ps : List Bytes} {s t : c.State} (len : ℕ) (partial : Bytes)
    → len < 2 ^ 32
    → length partial < len
    → m.body ≡ some (joined ps (to_little 4 len ++ partial))
    → NotZipped m.size_unzipped
    → Handles c ps s t
    → handle c m s ≡ ok (t, none)
handle-joined_cut c m {ps} {s} {t} len partial h l e z k =
    let wire = joined ps (to_little 4 len ++ partial) in
    handle_body c m wire s t e z (
      unpack-joined c (to_little 4 len ++ partial) (suc (length wire)) (Stops-cut c len partial h l)
        k (omega arith))
