-- ===== src/RateLimit.antt =====
-- Sources/Asio/RateLimit.cpp and Headers/Asio/RateLimit.hpp: queries that are started one at a time,
-- some time apart. A query is its id; what `performWithRedirect` does with it and the timer are
-- events. The events of the Asio thread come one after the other; what `post` gives it is kept until
-- it comes to it.
pub mod Paced
use christians_steam_framewo.Base.{
  ℕ, ◌+◌, ◌≤◌, Bool, true, false, List, [], ◌∷◌, ◌++◌, Option, none, some, if◌then◌else◌, leb,
  Outcome, ok, aborted, ◌>>=◌, ◌>>◌, assert, not, ◌==◌, ◌≡◌,
}

-- When a query began and when one completed.
pub data Act : Type 0 where
  began : ℕ → ℕ → Act
  completed : ℕ → Act

-- The queue, the query in progress, the timer's expiry and whether it is waited for, the queries
-- posted to the Asio thread, and, for the theorems, the acts so far, the latest first.
pub record RateLimitQueue : Type 0 where
  pub queue : List ℕ
  pub in_progress : Option ℕ
  pub expiry : ℕ
  pub waiting : Bool
  pub posted : List ℕ
  pub acts : List Act

-- A new queue; its timer expires when it is made.
abbrev pub make_queue : ℕ → RateLimitQueue
make_queue now = record {
  queue = [];
  in_progress = none;
  expiry = now;
  waiting = false;
  posted = [];
  acts = [];
}

-- runQuery, up to the completion of the query.
unfoldable pub run_query : ℕ → ℕ → RateLimitQueue → Outcome RateLimitQueue
run_query now query s = elim s.in_progress [
  | none ↦ ok (record s { in_progress = some query; acts = began query now ∷ s.acts })
  | some _ ↦ aborted
]

-- What `startQuery` does with the first query of the queue.
unfoldable pub start_first : ℕ → ℕ → List ℕ → RateLimitQueue → Outcome RateLimitQueue
unfolding run_query
start_first now query queries s =
    if leb s.expiry now
    then run_query now query (record s { queue = queries; waiting = false })
    else ok (record s { waiting = true })

-- startQuery; `is_thread` is whether it is called on the Asio thread.
unfoldable pub start_query : (is_thread : Bool) → ℕ → RateLimitQueue → Outcome RateLimitQueue
unfolding start_first
start_query is_thread now s = assert is_thread >> elim s.in_progress [
  | some _ ↦ ok s
  | none ↦ elim s.queue [ [] ↦ ok s | query ∷ queries ↦ start_first now query queries s ]
]

-- The timer fired.
unfoldable pub fire : ℕ → RateLimitQueue → Outcome RateLimitQueue
unfolding start_query
fire now s = start_query true now (record s { waiting = false })

-- The callback of `runQuery` for a query, with the delay `schedule`; it dereferences the query in
-- progress.
unfoldable pub complete : ℕ → ℕ → (query : ℕ) → RateLimitQueue → Outcome RateLimitQueue
unfolding start_query
complete schedule now query s = elim s.in_progress [
  | none ↦ aborted
  | some running ↦
      assert (query == running)
      >> start_query true now
          (record s { expiry = now + schedule; in_progress = none; acts = completed now ∷ s.acts })
]

-- Off the Asio thread, it is posted there.
unfoldable pub enqueue : (is_thread : Bool) → ℕ → ℕ → RateLimitQueue → Outcome RateLimitQueue
unfolding start_query
enqueue is_thread now query s =
    if not is_thread
    then ok (record s { posted = s.posted ++ query ∷ [] })
    else start_query is_thread now (record s { queue = s.queue ++ query ∷ [] })

-- The Asio thread comes to what was posted first, if there is something.
unfoldable pub run_posted : ℕ → RateLimitQueue → Outcome RateLimitQueue
unfolding enqueue
run_posted now s = elim s.posted [
  | [] ↦ ok s
  | query ∷ posted ↦ enqueue true now query (record s { posted = posted })
]
