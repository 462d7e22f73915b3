-- ===== src/Base/Endian.antt =====
-- Little-endian integers: `boost::endian::native_to_little` and `little_to_native` on a number of
-- `w` bytes.
use Prim.Native.Nat.{ℕ, zero, suc, ◌+◌, ◌*◌, ◌/◌, ◌%◌, ◌^◌, ◌<◌}
use mathlib.Core.Path.{◌≡◌, refl, ap, ap₂, ◌∙◌}
use mathlib.Core.List.{[], ◌∷◌}
use native.Mathlib.Omega.{arith}
use native.Mathlib.Nat.{pow-suc}
use christians_steam_framewo.Base.Lists.{length, All}
use christians_steam_framewo.Base.Text.{Bytes}

unfoldable pub from_little : Bytes → ℕ
from_little [] = 0
from_little (b ∷ bs) = b + 256 * from_little bs

unfoldable pub to_little : ℕ → ℕ → Bytes
to_little zero n = []
to_little (suc w) n = n % 256 ∷ to_little w (n / 256)

pub length-to_little : (w n : ℕ) → length (to_little w n) ≡ w
unfolding to_little
length-to_little zero n = refl
length-to_little (suc w) n = ap suc (length-to_little w (n / 256))

pub from_little-to_little : (w n : ℕ) → n < 256 ^ w → from_little (to_little w n) ≡ n
unfolding to_little from_little
from_little-to_little zero n h = omega arith
from_little-to_little (suc w) n h =
    omega (arith, from_little-to_little w (n / 256) (omega (arith, pow-suc 256 w)))

pub from_little-lt : (bs : Bytes) → All (λ b. b < 256) bs → from_little bs < 256 ^ length bs
unfolding from_little
from_little-lt [] h = omega arith
from_little-lt (b ∷ bs) h = omega (arith, from_little-lt bs h.1, pow-suc 256 (length bs))

pub to_little-from_little :
    (bs : Bytes) → All (λ b. b < 256) bs → to_little (length bs) (from_little bs) ≡ bs
unfolding to_little from_little
to_little-from_little [] h = refl
to_little-from_little (b ∷ bs) h =
    let low : (b + 256 * from_little bs) % 256 ≡ b = omega (arith, h.0) in
    let high : (b + 256 * from_little bs) / 256 ≡ from_little bs = omega (arith, h.0) in
    ap₂ ◌∷◌ low (ap (to_little (length bs)) high ∙ to_little-from_little bs h.1)
