-- ===== src/KeyValue/Text/Total.antt =====
-- The parser ends on every text.
use christians_steam_framewo.Base.{ℕ, ◌<◌, ◌≤◌, Bytes, Outcome, Ends, length}
use christians_steam_framewo.KeyValue.{Node}
use christians_steam_framewo.KeyValue.Text.{Token, end_token, Parse}

abbrev Shorter {ℓ} : {A : Type ℓ} → Bytes → Outcome (A × Bytes) → Type 0
Shorter text = Ends (λ r. length r.1 < length text)

abbrev NotLonger {ℓ} : {A : Type ℓ} → Bytes → Outcome (A × Bytes) → Type 0
NotLonger text = Ends (λ r. length r.1 ≤ length text)

-- A token but the end takes a character.
abbrev Taken : Bytes → Token × Bytes → Type 0
Taken text (end_token, rest) = length rest ≤ length text
Taken text (_, rest) = length rest < length text

-- The recursive call ends on texts below a length.
abbrev EndsBelow : ℕ → Parse → Type 0
EndsBelow l recurse =
    (d : ℕ) (text : Bytes) (n : Node) → length text < l → NotLonger text (recurse d text n)
