-- ===== src/Base/Results.antt =====
-- The outcome of a call: a value, an exception, a failed `assert`, or, for a model that recurs on
-- fuel, the fuel running out.
use mathlib.Core.Logic.{◌≢◌}
use mathlib.Core.Bool.{Bool, true, false}
use christians_steam_framewo.Base.Tests.{if◌then◌else◌}

pub data Exception : Type 0 where
  key_value_error syntax_error not_enough_data invalid_magic protobuf_error : Exception
  invalid_cookie encryption_failed connection_error runtime_error openssl_error hmac_mismatch
        length_error :
      Exception

pub data Outcome {ℓ} (A : Type ℓ) : Type ℓ where
  ok : A → Outcome A
  threw : Exception → Outcome A
  aborted : Outcome A
  out_of_fuel : Outcome A

infixl 5 ◌>>=◌ ◌>>◌
abbrev pub ◌>>=◌ {ℓ κ} : {A : Type ℓ} {B : Type κ} → Outcome A → (A → Outcome B) → Outcome B
ok a >>= f = f a
threw e >>= f = threw e
aborted >>= f = aborted
out_of_fuel >>= f = out_of_fuel

abbrev pub ◌>>◌ {ℓ} : {B : Type ℓ} → Outcome (Unit {0}) → Outcome B → Outcome B
m >> k = m >>= λ _. k

abbrev pub assert : Bool → Outcome (Unit {0})
assert true = ok tt
assert false = aborted

-- The call came back within its fuel, and `P` holds of its value if it has one.
abbrev pub Ends {ℓ} : {A : Type ℓ} → (A → Type 0) → Outcome A → Type 0
Ends P (ok a) = P a
Ends P (threw e) = Unit
Ends P aborted = Unit
Ends P out_of_fuel = ⊥

pub Ends-ne-out_of_fuel {ℓ} :
    {A : Type ℓ} (P : A → Type 0) (r : Outcome A) → Ends P r → r ≢ out_of_fuel
Ends-ne-out_of_fuel P (ok a) h = cc
Ends-ne-out_of_fuel P (threw e) h = cc
Ends-ne-out_of_fuel P aborted h = cc
Ends-ne-out_of_fuel P out_of_fuel h = absurd h

pub Ends-bind {ℓ κ} :
    {A : Type ℓ} {B : Type κ} (Before : A → Type 0) (After : B → Type 0) (m : Outcome A)
    (next : A → Outcome B)
    → Ends Before m
    → ((x : A) → Before x → Ends After (next x))
    → Ends After (m >>= next)
Ends-bind Before After (ok x) next ends step = step x ends
Ends-bind Before After out_of_fuel next ends step = absurd ends
Ends-bind Before After (threw e) next ends step = tt
Ends-bind Before After aborted next ends step = tt

pub Ends-if {ℓ} :
    {A : Type ℓ} (P : A → Type 0) (b : Bool) (x y : Outcome A)
    → Ends P x
    → Ends P y
    → Ends P (if b then x else y)
Ends-if P true x y h k = h
Ends-if P false x y h k = k
