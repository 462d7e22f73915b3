-- ===== src/BitField.antt =====
-- Headers/BitField.hpp: fields of bits in a uint64_t, numbered from the lowest. A mask `& (2^n - 1)`
-- is `% 2^n`, a shift a product or a quotient, and `|` of disjoint bits a sum.
pub mod SteamId
pub mod GlobalId
use christians_steam_framewo.Base.{ℕ, ◌+◌, ◌-◌, ◌*◌, ◌/◌, ◌%◌, ◌^◌}

-- get(offset, count)
unfoldable pub get_bits : ℕ → ℕ → ℕ → ℕ
get_bits offset count bits = bits / 2 ^ offset % 2 ^ count

-- data & ~(mask<<offset)
unfoldable pub clear_bits : ℕ → ℕ → ℕ → ℕ
unfolding get_bits
clear_bits offset count bits = bits - get_bits offset count bits * 2 ^ offset

-- set(offset, count, value)
unfoldable pub set_bits : ℕ → ℕ → ℕ → ℕ → ℕ
unfolding clear_bits
set_bits offset count value bits = clear_bits offset count bits + value % 2 ^ count * 2 ^ offset
