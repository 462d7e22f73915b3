-- ===== src/RateLimit/Paced.antt =====
-- What a queue does in any sequence of events: one query at a time, in the order in which they were
-- enqueued, each some time after the one before has completed, and none is forgotten.
use christians_steam_framewo.Base.{
  ℕ, ◌+◌, ◌≤◌, Bool, true, false, List, [], ◌∷◌, ◌++◌, append_assoc, Option, none, some, leb,
  leb→le, ◌==◌, ok, aborted, Option-cases, ◌≡◌, ◌≢◌, ◌⊎◌, refl, sym, ap, subst, ◌∙◌, Bool-cases,
  inl, inr,
}
use christians_steam_framewo.RateLimit.{
  Act, began, completed, RateLimitQueue, make_queue, run_query, start_first, start_query, fire,
  complete, enqueue, run_posted,
}

-- Acts, the latest first, that leave a query in progress or none, and an expiry. A query begins only
-- when none is in progress, and not before the expiry, which its completion moves.
pub data Paced (schedule : ℕ) : List Act → Option ℕ → ℕ → Type 0 where
  none_yet : (expiry : ℕ) → Paced schedule [] none expiry
  begins :
      (acts : List Act) (expiry query now : ℕ)
      → Paced schedule acts none expiry
      → expiry ≤ now
      → Paced schedule (began query now ∷ acts) (some query) expiry
  completes :
      (acts : List Act) (expiry query now : ℕ)
      → Paced schedule acts (some query) expiry
      → Paced schedule (completed now ∷ acts) none (now + schedule)

-- The queries that began, the first one first.
unfoldable pub begun : List Act → List ℕ
begun [] = []
begun (began query now ∷ acts) = begun acts ++ query ∷ []
begun (completed now ∷ acts) = begun acts

-- The states that events lead to, with the queries that came to the queue on the Asio thread so far.
pub data Runs (schedule start : ℕ) : List ℕ → RateLimitQueue → Type 0 where
  made : Runs schedule start [] (make_queue start)
  enqueues :
      (queries : List ℕ) (s s' : RateLimitQueue) (now query : ℕ)
      → Runs schedule start queries s
      → enqueue true now query s ≡ ok s'
      → Runs schedule start (queries ++ query ∷ []) s'
  posts :
      (queries : List ℕ) (s s' : RateLimitQueue) (now query : ℕ)
      → Runs schedule start queries s
      → enqueue false now query s ≡ ok s'
      → Runs schedule start queries s'
  runs_posted :
      (queries : List ℕ) (s s' : RateLimitQueue) (now query : ℕ) (posted : List ℕ)
      → Runs schedule start queries s
      → s.posted ≡ query ∷ posted
      → run_posted now s ≡ ok s'
      → Runs schedule start (queries ++ query ∷ []) s'
  fires :
      (queries : List ℕ) (s s' : RateLimitQueue) (now : ℕ)
      → Runs schedule start queries s
      → fire now s ≡ ok s'
      → Runs schedule start queries s'
  finishes :
      (queries : List ℕ) (s s' : RateLimitQueue) (now query : ℕ)
      → Runs schedule start queries s
      → complete schedule now query s ≡ ok s'
      → Runs schedule start queries s'

-- A query is in progress, the queue is empty, or the timer is waited for.
abbrev pub Live : RateLimitQueue → Type 0
Live s = ((q : ℕ) × (s.in_progress ≡ some q)) ⊎ ((s.queue ≡ []) ⊎ (s.waiting ≡ true))

abbrev Ordered : ℕ → List ℕ → RateLimitQueue → Type 0
Ordered schedule queries s =
    Paced schedule s.acts s.in_progress s.expiry × (begun s.acts ++ s.queue ≡ queries)

-- On the Asio thread, `startQuery` fails no assertion, and leaves a queue that is live.
Started : ℕ → List ℕ → ℕ → RateLimitQueue → Type 0
Started schedule queries now s =
    (s' : RateLimitQueue) × (start_query true now s ≡ ok s')
    × Live s'
    × (Ordered schedule queries s → Ordered schedule queries s')

start_query_at :
    (schedule : ℕ) (queries : List ℕ) (now : ℕ) (queue : List ℕ) (in_progress : Option ℕ)
    (expiry : ℕ) (waiting : Bool) (posted : List ℕ) (acts : List Act)
    → Started schedule queries now (record {
      queue = queue;
      in_progress = in_progress;
      expiry = expiry;
      waiting = waiting;
      posted = posted;
      acts = acts;
    })
unfolding Started start_query start_first run_query begun
start_query_at schedule queries now queue (some q) expiry waiting posted acts =
    (_, refl, inl (q, refl), λ o. o)
start_query_at schedule queries now [] none expiry waiting posted acts =
    (_, refl, inr (inl refl), λ o. o)
start_query_at schedule queries now (q ∷ queue) none expiry waiting posted acts =
    elim (Bool-cases (leb expiry now)) [
      | inl e ↦ (
        record {
          queue = queue;
          in_progress = some q;
          expiry = expiry;
          waiting = false;
          posted = posted;
          acts = began q now ∷ acts;
        },
        rw e refl,
        inl (q, refl),
        λ (p, o). (
          begins acts expiry q now p (leb→le expiry now e),
          append_assoc (begun acts) (q ∷ []) queue ∙ o,
        ),
      )
      | inr e ↦ (
        record {
          queue = q ∷ queue;
          in_progress = none;
          expiry = expiry;
          waiting = true;
          posted = posted;
          acts = acts;
        },
        rw e refl,
        inr (inr refl),
        λ o. o,
      )
    ]

start_query-Started :
    (schedule : ℕ) (queries : List ℕ) (now : ℕ) (s : RateLimitQueue)
    → Started schedule queries now s
start_query-Started schedule queries now s =
    start_query_at schedule queries now s.queue s.in_progress s.expiry s.waiting s.posted s.acts

ok_inj : {a b : RateLimitQueue} → ok a ≡ ok b → a ≡ b
ok_inj e = cc

aborted-ne-ok : {s : RateLimitQueue} → aborted ≢ ok s
aborted-ne-ok e = cc

started :
    (schedule : ℕ) (queries : List ℕ) (now : ℕ) (s s' : RateLimitQueue)
    → start_query true now s ≡ ok s'
    → Ordered schedule queries s
    → Ordered schedule queries s' × Live s'
unfolding Started
started schedule queries now s s' e o =
    let (t, q, live, ordered) = start_query-Started schedule queries now s in
    let same : t ≡ s' = ok_inj (sym q ∙ e) in
    subst (λ s. Ordered schedule queries s × Live s) same (ordered o, live)

after_completion : ℕ → ℕ → RateLimitQueue → RateLimitQueue
after_completion schedule now s = record s {
  expiry = now + schedule;
  in_progress = none;
  acts = completed now ∷ s.acts;
}

complete_eq :
    (schedule now query : ℕ) (s s' : RateLimitQueue)
    → complete schedule now query s ≡ ok s'
    → (q : ℕ) × (s.in_progress ≡ some q)
      × (start_query true now (after_completion schedule now s) ≡ ok s')
unfolding complete after_completion
complete_eq schedule now query s s' e = elim (Option-cases s.in_progress) [
  | inl n ↦ absurd (aborted-ne-ok (rw (complete, n) at e))
  | inr (q, n) ↦ elim (Bool-cases (query == q)) [
    | inl same ↦ (q, n, rw (complete, n, same) at e)
    | inr other ↦ absurd (aborted-ne-ok (rw (complete, n, other) at e))
  ]
]

enqueued :
    (schedule : ℕ) (queries : List ℕ) (now query : ℕ) (s s' : RateLimitQueue)
    → enqueue true now query s ≡ ok s'
    → Ordered schedule queries s
    → Ordered schedule (queries ++ query ∷ []) s' × Live s'
unfolding enqueue
enqueued schedule queries now query s s' e (p, o) =
    started schedule (queries ++ query ∷ []) now (record s { queue = s.queue ++ query ∷ [] }) s' e
      (p, sym (append_assoc (begun s.acts) s.queue (query ∷ [])) ∙ ap (λ l. l ++ query ∷ []) o)

-- Whatever events came, and whenever they did: queries began one at a time, each not before the
-- expiry of the timer, which is set `schedule` after the completion of the query before; those that
-- began and those in the queue are the ones enqueued on the Asio thread, in that order; and a query is in progress, the
-- queue is empty, or the timer is waited for.
pub Runs-Paced :
    (schedule start : ℕ) (queries : List ℕ) (s : RateLimitQueue)
    → Runs schedule start queries s
    → (Paced schedule s.acts s.in_progress s.expiry × (begun s.acts ++ s.queue ≡ queries)) × Live s
unfolding begun enqueue fire after_completion run_posted
Runs-Paced schedule start _ _ made = ((none_yet start, refl), inr (inl refl))
Runs-Paced schedule start _ _ (enqueues queries s s' now query r e) =
    let (o, _) = Runs-Paced schedule start queries s r in
    enqueued schedule queries now query s s' e o
Runs-Paced schedule start _ _ (posts queries s s' now query r e) =
    subst
      (λ (t : RateLimitQueue).
        (Paced schedule t.acts t.in_progress t.expiry × (begun t.acts ++ t.queue ≡ queries))
        × Live t)
      (ok_inj e) (Runs-Paced schedule start queries s r)
Runs-Paced schedule start _ _ (runs_posted queries s s' now query posted r h e) =
    let (o, _) = Runs-Paced schedule start queries s r in
    enqueued schedule queries now query (record s { posted = posted }) s' (rw (run_posted, h) at e)
      o
Runs-Paced schedule start _ _ (fires queries s s' now r e) =
    let (o, _) = Runs-Paced schedule start queries s r in
    started schedule queries now (record s { waiting = false }) s' e o
Runs-Paced schedule start _ _ (finishes queries s s' now query r e) =
    let ((p, o), _) = Runs-Paced schedule start queries s r in
    let (q, n, f) = complete_eq schedule now query s s' e in
    started schedule queries now (after_completion schedule now s) s' f
      (completes s.acts s.expiry q now (subst (λ i. Paced schedule s.acts i s.expiry) n p), o)
