-- ===== src/Tests/Boards.antt =====
-- The whiteboard.
use christians_steam_framewo.Base.{ℕ, Bool, List, [], ◌∷◌, some, if◌then◌else◌, ◌==◌, ◌≡◌}
use christians_steam_framewo.Whiteboard.{Whiteboard, set, has}
use christians_steam_framewo.Whiteboard.Notify.{Notified, set-Notified}
use christians_steam_framewo.Whiteboard.Fresh.{Event, no_flags, nothing_yet, Fresh, run, run-Fresh}

-- Waiters 5 and 6 are registered for type 1; waiter 6 can no longer be locked.
abbrev board : Whiteboard ℕ
board = record { items = (2, 9) ∷ []; waiters = (1, 5 ∷ 6 ∷ []) ∷ []; flags = no_flags }

abbrev locks : ℕ → Bool
locks w = w == 5

set-Notified_test :
    ((k : ℕ) → has k (set locks 1 8 board) ≡ (if 1 == k then some 8 else has k board))
    × Notified locks 1 board.waiters board.flags
        (set locks 1 8 board).waiters
        (set locks 1 8 board).flags
set-Notified_test = set-Notified locks 1 8 board

-- A waiter for type 1 is installed, the item is set and asked for, and set again.
abbrev events : List (Event ℕ)
events = Event.installs 5 ∷ Event.sets 1 8 ∷ Event.asks 5 ∷ Event.sets 1 9 ∷ []

run-Fresh_example : Fresh locks (λ w. 1) 5 (run locks (λ w. 1) events nothing_yet)
run-Fresh_example = run-Fresh locks (λ w. 1) events 5
