-- ===== src/BitField/GlobalId.antt =====
-- Headers/GlobalID.hpp and Sources/JobID.cpp: the fields of a GlobalID, and the ids of jobs.
use christians_steam_framewo.Base.{
  ℕ, ◌+◌, ◌-◌, ◌%◌, ◌^◌, ◌<◌, Bool, true, false, if◌then◌else◌, ◌≡◌, ◌↔◌, arith,
}
use christians_steam_framewo.BitField.{get_bits, set_bits}

pub data Field : Type 0 where
  sequential_count start_time_seconds process_id box_id : Field

abbrev pub offset : Field → ℕ
offset sequential_count = 0
offset start_time_seconds = 20
offset process_id = 50
offset box_id = 54

abbrev pub count : Field → ℕ
count sequential_count = 20
count start_time_seconds = 30
count process_id = 4
count box_id = 10

abbrev pub same : Field → Field → Bool
same sequential_count sequential_count = true
same start_time_seconds start_time_seconds = true
same process_id process_id = true
same box_id box_id = true
same _ _ = false

unfoldable pub get : Field → ℕ → ℕ
unfolding get_bits
get f bits = get_bits (offset f) (count f) bits

unfoldable pub set : Field → ℕ → ℕ → ℕ
unfolding set_bits
set f value bits = set_bits (offset f) (count f) value bits

-- setStartTime, on the seconds since the epoch of the system clock, from the year 2005 on; the cast
-- is to uint32_t.
abbrev pub epoch_2005 : ℕ
epoch_2005 = 1104537600

unfoldable pub set_start_time : ℕ → ℕ → ℕ
unfolding set
set_start_time time bits = set start_time_seconds ((time - epoch_2005) % 2 ^ 32) bits

unfoldable pub get_start_time : ℕ → ℕ
unfolding get
get_start_time bits = epoch_2005 + get start_time_seconds bits

-- JobID::JobID: the counter after `++sequence`, a uint32_t, and the new id.
unfoldable pub make_job_id : ℕ → ℕ → ℕ × ℕ
unfolding set set_start_time
make_job_id start_time sequence =
    let next = (sequence + 1) % 2 ^ 32 in
    (next, set_start_time start_time (set sequential_count next 0))

-- A setter on a value of 64 bits stores the low bits of its argument in its field, keeps every other
-- field, and leaves a value of 64 bits.
pub get-set_global :
    (f g : Field) (value bits : ℕ)
    → bits < 2 ^ 64
    → (get g (set f value bits) ≡ (if same f g then value % 2 ^ count f else get g bits))
      × (set f value bits < 2 ^ 64)
unfolding get set
get-set_global sequential_count sequential_count value bits h = (omega arith, omega arith)
get-set_global sequential_count _ value bits h = (omega arith, omega arith)
get-set_global start_time_seconds start_time_seconds value bits h = (omega arith, omega arith)
get-set_global start_time_seconds _ value bits h = (omega arith, omega arith)
get-set_global process_id process_id value bits h = (omega arith, omega arith)
get-set_global process_id _ value bits h = (omega arith, omega arith)
get-set_global box_id box_id value bits h = (omega arith, omega arith)
get-set_global box_id _ value bits h = (omega arith, omega arith)

-- A start time after the start of 2005, by less than 2 ^ 30 seconds, is read back as it was set into
-- a value of 64 bits.
pub get_start_time-set_start_time :
    (time bits : ℕ)
    → bits < 2 ^ 64
    → epoch_2005 < time
    → time < epoch_2005 + 2 ^ 30
    → get_start_time (set_start_time time bits) ≡ time
unfolding get_start_time set_start_time
get_start_time-set_start_time time bits h a b = omega arith

-- Two jobs of one start time, made when the 32-bit counter stood at two values, have the same id
-- exactly when these agree modulo 2 ^ 20: an id is unique only among 2 ^ 20 jobs in a row.
pub make_job_id-eq_iff :
    (start_time m n : ℕ)
    → m < 2 ^ 32
    → n < 2 ^ 32
    → ((make_job_id start_time m).1 ≡ (make_job_id start_time n).1) ↔ (m % 2 ^ 20 ≡ n % 2 ^ 20)
unfolding make_job_id
make_job_id-eq_iff start_time m n hm hn = (λ e. omega arith, λ e. omega arith)
