-- ===== src/BitField/SteamId.antt =====
-- Headers/SteamID.hpp: the fields of a SteamID.
use christians_steam_framewo.Base.{ℕ, ◌%◌, ◌^◌, ◌<◌, Bool, true, false, if◌then◌else◌, ◌≡◌, arith}
use christians_steam_framewo.BitField.{get_bits, set_bits}

pub data Field : Type 0 where
  account_id account_instance account_type universe : Field

abbrev pub offset : Field → ℕ
offset account_id = 0
offset account_instance = 32
offset account_type = 52
offset universe = 56

abbrev pub count : Field → ℕ
count account_id = 32
count account_instance = 20
count account_type = 4
count universe = 8

abbrev pub same : Field → Field → Bool
same account_id account_id = true
same account_instance account_instance = true
same account_type account_type = true
same universe universe = true
same _ _ = false

-- The getters and setters of the class, at their fields.
unfoldable pub get : Field → ℕ → ℕ
unfolding get_bits
get f bits = get_bits (offset f) (count f) bits

unfoldable pub set : Field → ℕ → ℕ → ℕ
unfolding set_bits
set f value bits = set_bits (offset f) (count f) value bits

-- A setter on a value of 64 bits stores the low bits of its argument in its field, keeps every other
-- field, and leaves a value of 64 bits.
pub get-set :
    (f g : Field) (value bits : ℕ)
    → bits < 2 ^ 64
    → (get g (set f value bits) ≡ (if same f g then value % 2 ^ count f else get g bits))
      × (set f value bits < 2 ^ 64)
unfolding get set
get-set account_id account_id value bits h = (omega arith, omega arith)
get-set account_id _ value bits h = (omega arith, omega arith)
get-set account_instance account_instance value bits h = (omega arith, omega arith)
get-set account_instance _ value bits h = (omega arith, omega arith)
get-set account_type account_type value bits h = (omega arith, omega arith)
get-set account_type _ value bits h = (omega arith, omega arith)
get-set universe universe value bits h = (omega arith, omega arith)
get-set universe _ value bits h = (omega arith, omega arith)

-- The four fields make up the whole value.
pub fields_eq : (a b : ℕ) → a < 2 ^ 64 → b < 2 ^ 64 → ((f : Field) → get f a ≡ get f b) → a ≡ b
unfolding get
fields_eq a b ha hb same_fields = omega (
  arith,
  same_fields account_id,
  same_fields account_instance,
  same_fields account_type,
  same_fields universe,
)
