-- ===== src/AssetKey/ClassInfo.antt =====
-- What is parsed of digits.
use christians_steam_framewo.Base.{
  ℕ, ◌-◌, ◌^◌, ◌<◌, Bool, true, false, [], ◌∷◌, ◌++◌, Option, none, some, Bytes, codes,
  if◌then◌else◌, ltb, ◌==◌, ◌≡◌, ◌↔◌, refl, ap, sym, ◌∙◌, append-nil, Bool-cases, inl, inr, arith,
}
use christians_steam_framewo.AssetKey.{
  IntegerType, unsigned, signed, is_empty, is_digit, span_digits, decimal, magnitude, from_chars,
  slash, parse_number, parse_number_prefix, parse_number_slash, parse_string, AssetKey, app_id_type,
  class_id_type, init,
}

abbrev pub AllDigits : Bytes → Type 0
AllDigits [] = Unit
AllDigits (c ∷ cs) = (is_digit c ≡ true) × AllDigits cs

-- There is no digit at the front.
abbrev pub Stops : Bytes → Type 0
Stops [] = Unit
Stops (c ∷ cs) = is_digit c ≡ false

span_digits-append :
    (digits rest : Bytes)
    → AllDigits digits
    → Stops rest
    → span_digits (digits ++ rest) ≡ (digits, rest)
unfolding span_digits
span_digits-append [] [] d s = refl
span_digits-append [] (c ∷ rest) d s = rw s refl
span_digits-append (c ∷ digits) rest d s = rw d.0 (rw (span_digits-append digits rest d.1 s) refl)

-- The text of a number below a limit.
abbrev pub Below : (limit : ℕ) → Bytes → Type 0
Below limit digits = AllDigits digits × (is_empty digits ≡ false) × (decimal 0 digits < limit)

magnitude-append :
    (limit : ℕ) (digits rest : Bytes)
    → Below limit digits
    → Stops rest
    → magnitude limit (digits ++ rest) ≡ some (decimal 0 digits, rest)
unfolding magnitude
magnitude-append limit digits rest (d, e, b) s =
    rw (span_digits-append digits rest d s) (rw e (ground arith))

-- How many values a type has without a sign.
abbrev pub limit : IntegerType → ℕ
limit (unsigned bits) = 2 ^ bits
limit (signed bits) = 2 ^ (bits - 1)

from_chars-append :
    (type : IntegerType) (digits rest : Bytes)
    → Below (limit type) digits
    → Stops rest
    → from_chars type (digits ++ rest) ≡ some (decimal 0 digits, rest)
unfolding from_chars
from_chars-append (unsigned bits) digits rest b s = magnitude-append (2 ^ bits) digits rest b s
from_chars-append (signed bits) [] rest b s = absurd (cc (b.1))
from_chars-append (signed bits) (c ∷ digits) rest b s =
    let positive : (c == 45) ≡ false = ground (arith, b.0.0) in
    rw positive (magnitude-append (2 ^ (bits - 1)) (c ∷ digits) rest b s)

parse_number_prefix-append :
    (type : IntegerType) (digits rest : Bytes) (number : ℕ)
    → Below (limit type) digits
    → Stops rest
    → parse_number_prefix type (digits ++ rest) number
      ≡ record { success = true; string = rest; number = decimal 0 digits }
unfolding parse_number_prefix
parse_number_prefix-append type digits rest number b s =
    rw (from_chars-append type digits rest b s, parse_number_prefix) refl

parse_number_slash-append :
    (type : IntegerType) (digits rest : Bytes) (number : ℕ)
    → Below (limit type) digits
    → Stops rest
    → parse_number_slash type (digits ++ rest) number
      ≡ slash (record { success = true; string = rest; number = decimal 0 digits }) rest
unfolding parse_number_slash
parse_number_slash-append type digits rest number b s =
    rw (parse_number_prefix-append type digits rest number b s) refl

-- What is left when the slash is read.
abbrev pub behind_slash : Bytes → Bytes
behind_slash [] = []
behind_slash (c ∷ cs) = if c == 47 then cs else c ∷ cs

slash_lem :
    (n : ℕ) (rest : Bytes)
    → ((slash (record { success = true; string = rest; number = n }) rest).number ≡ n)
      × ((slash (record { success = true; string = rest; number = n }) rest).string
          ≡ behind_slash rest)
slash_lem n [] = (refl, refl)
slash_lem n (c ∷ rest) = ground arith

-- A string of "classinfo/", a game of less than 2 ^ 31, a slash, a class, a slash, and an instance,
-- both of less than 2 ^ 64, each in digits, with anything but a digit behind them, gives their key,
-- and the string is left from there on, less a slash.
pub init-class_info :
    (key : AssetKey) (app class instance_ rest : Bytes)
    → Below (2 ^ 31) app
    → Below (2 ^ 64) class
    → Below (2 ^ 64) instance_
    → Stops rest
    → init key (codes "classinfo/" ++ (app ++ 47 ∷ (class ++ 47 ∷ (instance_ ++ rest)))) ≡ (
      true,
      record {
        app_id = decimal 0 app;
        class_id = decimal 0 class;
        instance_id = decimal 0 instance_;
      },
      behind_slash rest,
    )
unfolding init parse_string
init-class_info key app class instance_ rest a c i s =
    rw
      (parse_number_slash-append app_id_type app (47 ∷ (class ++ 47 ∷ (instance_ ++ rest)))
        key.app_id a refl)
      (rw
        (parse_number_slash-append class_id_type class (47 ∷ (instance_ ++ rest)) key.class_id c
          refl)
        (rw (parse_number_slash-append class_id_type instance_ rest key.instance_id i s)
          (let (n, r) = slash_lem (decimal 0 instance_) rest in rw n (rw r refl))))

span_digits_lem :
    (string : Bytes)
    → AllDigits (span_digits string).0 × ((span_digits string).0 ++ (span_digits string).1 ≡ string)
unfolding span_digits
span_digits_lem [] = (tt, refl)
span_digits_lem (c ∷ cs) =
    let (d, e) = span_digits_lem cs in
    elim (Bool-cases (is_digit c)) [
      | inl is ↦ rw is ((is, d), ap (λ (t : Bytes). c ∷ t) e)
      | inr is ↦ rw is (tt, refl)
    ]

-- What the parser returns, by the digits and by what follows them.
abbrev after_digits : (below : ℕ) (digits rest : Bytes) (number : ℕ) → Bool × ℕ
after_digits below digits rest number =
    let found : Option (ℕ × Bytes) =
      if is_empty digits
      then none
      else if ltb (decimal 0 digits) below
      then some (decimal 0 digits, rest)
      else none in
    elim found [ none ↦ (false, number) | some r ↦ (is_empty r.1, r.0) ]

parse_number-all :
    (below : ℕ) (digits rest : Bytes) (number m : ℕ)
    → after_digits below digits rest number ≡ (true, m)
    → (rest ≡ []) × (is_empty digits ≡ false) × (decimal 0 digits < below) × (m ≡ decimal 0 digits)
parse_number-all below [] rest number m h = cc (ap (λ (r : Bool × ℕ). r.0) h)
parse_number-all below (d ∷ digits) [] number m h =
    elim (Bool-cases (ltb (decimal 0 (d ∷ digits)) below)) [
      | inl is ↦
          let small : decimal 0 (d ∷ digits) < below = ground arith in
          let value : (true, decimal 0 (d ∷ digits)) ≡ (true, m) = rw (is, after_digits) at h in
          (refl, refl, small, sym (ap (λ (r : Bool × ℕ). r.1) value))
      | inr is ↦ cc (ap (λ (r : Bool × ℕ). r.0) (rw (is, after_digits) at h))
    ]
parse_number-all below (d ∷ digits) (c ∷ rest) number m h =
    elim (Bool-cases (ltb (decimal 0 (d ∷ digits)) below)) [
      | inl is ↦ cc (ap (λ (r : Bool × ℕ). r.0) (rw (is, after_digits) at h))
      | inr is ↦ cc (ap (λ (r : Bool × ℕ). r.0) (rw (is, after_digits) at h))
    ]

-- A parse of an unsigned number of some width succeeds, and gives a value, exactly if the string
-- is digits, one at least, and nothing else, their number fits the width, and it is that value.
pub parse_number_iff :
    (bits : ℕ) (string : Bytes) (number m : ℕ)
    → (parse_number (unsigned bits) string number ≡ (true, m))
      ↔ (Below (2 ^ bits) string × (m ≡ decimal 0 string))
unfolding parse_number from_chars magnitude
parse_number_iff bits string number m = (
  λ h.
      let (d, e) = span_digits_lem string in
      let (r, n, b, v) =
        parse_number-all (2 ^ bits) (span_digits string).0 (span_digits string).1 number m h in
      let all : (span_digits string).0 ≡ string =
        sym (append-nil (span_digits string).0) ∙ (rw r at e) in
      ((rw all at d, rw all at n, rw all at b), rw all at v),
  λ (b, v).
      let e : from_chars (unsigned bits) string ≡ some (decimal 0 string, []) =
        rw append-nil at (from_chars-append (unsigned bits) string [] b tt) in
      rw (e, parse_number) (rw v refl),
)
