-- ===== src/KeyValue/Binary/Total.antt =====
-- The deserialiser ends on every input, whatever the bytes: each round takes a byte.
use christians_steam_framewo.Base.{◌<◌, ◌≤◌, Bytes, Outcome, Ends, length}

-- What is left of the input is not longer.
abbrev Shorter {ℓ} : {A : Type ℓ} → Bytes → Outcome (A × Bytes) → Type 0
Shorter bytes = Ends (λ r. length r.1 < length bytes)

abbrev NotLonger {ℓ} : {A : Type ℓ} → Bytes → Outcome (A × Bytes) → Type 0
NotLonger bytes = Ends (λ r. length r.1 ≤ length bytes)
