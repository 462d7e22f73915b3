-- ===== src/Wire/Laws.antt =====
-- What was stored is read back, and what the stores report.
use Prim.Native.Nat.{◌^◌}
use christians_steam_framewo.Base.{
  ◌%◌, ◌&&◌, ltb, leb, true, ℕ, ◌+◌, ◌<◌, List, [], ◌∷◌, ◌++◌, append_assoc, append-nil, Bytes, ok,
  length, to_little, length-to_little, from_little-to_little, length-append, take-append,
  drop-append, ◌≡◌, refl, subst, le→not_ltb, arith,
}
use christians_steam_framewo.Wire.{
  Serializer, store_all, get_bytes, get_int, get_all, Protobuf, DecodesEncoded, get_proto,
}

-- The bytes that a list of stores appends.
unfoldable pub layout : List (ℕ × ℕ) → Bytes
layout [] = []
layout ((w, value) ∷ rest) = to_little w value ++ layout rest

abbrev pub total : List (ℕ × ℕ) → ℕ
total [] = 0
total ((w, value) ∷ rest) = w + total rest

-- Each value fits its width.
abbrev pub Fit : List (ℕ × ℕ) → Type 0
Fit [] = Unit
Fit ((w, value) ∷ rest) = (value < 256 ^ w) × Fit rest

-- A store of several integers appends their little-endian bytes in order, keeps the rest of the
-- serializer, and reports the sum of the widths, which is the number of bytes appended.
pub store_all_lem :
    (xs : List (ℕ × ℕ)) (s : Serializer)
    → (store_all xs s ≡ (total xs, record s { result = s.result ++ layout xs }))
      × (length (layout xs) ≡ total xs)
unfolding store_all layout
store_all_lem [] s = (rw append-nil, refl)
store_all_lem ((w, value) ∷ xs) s =
    let s' = record s { result = s.result ++ to_little w value } in
    (
      rw ((store_all_lem xs s').0, length-to_little w value, append_assoc),
      omega (
        arith,
        length-append (to_little w value) (layout xs),
        length-to_little w value,
        (store_all_lem xs s').1,
      ),
    )

pub get_bytes-append : (xs ys : Bytes) → get_bytes (length xs) (xs ++ ys) ≡ ok (xs, ys)
unfolding get_bytes
get_bytes-append xs ys =
    rw (le→not_ltb (length (xs ++ ys)) (length xs) (omega (arith, length-append xs ys)))
      (rw (take-append xs ys, drop-append xs ys))

pub get_int-append :
    (w value : ℕ) (rest : Bytes)
    → value < 256 ^ w
    → get_int w (to_little w value ++ rest) ≡ ok (value, rest)
unfolding get_int
get_int-append w value rest h =
    let read = get_bytes-append (to_little w value) rest in
    let read_w =
      subst (λ n. get_bytes n (to_little w value ++ rest) ≡ ok (to_little w value, rest))
        (length-to_little w value) read in
    rw read_w (rw (from_little-to_little w value h))

abbrev pub widths : List (ℕ × ℕ) → List ℕ
widths [] = []
widths ((w, value) ∷ rest) = w ∷ widths rest

abbrev pub values : List (ℕ × ℕ) → List ℕ
values [] = []
values ((w, value) ∷ rest) = value ∷ values rest

-- Of integers that each fit their width, reading at the same widths gives back the values that were
-- laid out, and leaves what follows.
pub get_all-layout :
    (xs : List (ℕ × ℕ)) (rest : Bytes)
    → Fit xs
    → get_all (widths xs) (layout xs ++ rest) ≡ ok (values xs, rest)
unfolding get_all layout
get_all-layout [] rest h = refl
get_all-layout ((w, value) ∷ xs) rest h =
    rw (append_assoc (to_little w value) (layout xs) rest)
      (rw (get_int-append w value (layout xs ++ rest) h.0) (rw (get_all-layout xs rest h.1)))

-- A protobuf message is read back from its own bytes, and what follows it is left.
pub get_proto-encode :
    (p : Protobuf) (m : p.Proto) (rest : Bytes)
    → DecodesEncoded p
    → length (p.encode m) < 2 ^ 31
    → get_proto p (length (p.encode m)) (p.encode m ++ rest) ≡ ok (m, rest)
unfolding get_proto
get_proto-encode p m rest h l =
    let small : length (p.encode m) % 2 ^ 32 ≡ length (p.encode m) = omega arith in
    let whole : (ltb (length (p.encode m)) (2 ^ 31)
          && leb (length (p.encode m)) (length (p.encode m ++ rest)))
        ≡ true =
      ground (arith, length-append (p.encode m) rest) in
    rw
      (le→not_ltb (length (p.encode m ++ rest)) (length (p.encode m))
        (omega (arith, length-append (p.encode m) rest)))
      (rw small (rw (h m rest l) (rw whole (rw (get_bytes-append (p.encode m) rest)))))
