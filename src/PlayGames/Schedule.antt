-- ===== src/PlayGames/Schedule.antt =====
-- When the games change: the loop of `run` waits for the earliest update.
use christians_steam_framewo.Base.{
  ℕ, ◌≤◌, ◌<◌, Bool, List, [], ◌∷◌, Option, none, some, leb, ltb, ◌≡◌, refl, sym, subst, Bool-cases,
  inl, inr, arith, All,
}
use christians_steam_framewo.PlayGames.{
  Game, PlayGames, earliest, get_next_update, send_games, request_updates, toggle, toggle_games,
  handle_updates, turn,
}

-- A wait until `o` that wakes up for no game too late, and not before `now`.
unfoldable pub Waits : ℕ → List Game → Option ℕ → Type 0
Waits now gs none = gs ≡ []
Waits now gs (some t) = (now < t) × All (λ g. t ≤ g.next_update) gs

-- Each game's update lies ahead.
abbrev Ahead : ℕ → List Game → Type 0
Ahead now gs = All (λ g. now < g.next_update) gs

toggle_games-Ahead : (now : ℕ) (gs : List Game) → Ahead now (toggle_games now gs).0.0
unfolding toggle_games toggle
toggle_games-Ahead now [] = tt
toggle_games-Ahead now (g ∷ gs) = elim (Bool-cases (leb g.next_update now)) [
  | inl e ↦ elim (Bool-cases g.paused) [
    | inl p ↦ rw (e, p) (omega arith, toggle_games-Ahead now gs)
    | inr p ↦ rw (e, p) (omega arith, toggle_games-Ahead now gs)
  ]
  | inr e ↦ rw e (ground arith, toggle_games-Ahead now gs)
]

earliest-some :
    (now t : ℕ) (gs : List Game)
    → now < t
    → Ahead now gs
    → (u : ℕ) × (earliest (some t) gs ≡ some u)
      × (now < u)
      × (u ≤ t)
      × All (λ g. u ≤ g.next_update) gs
unfolding earliest
earliest-some now t [] l h = (t, refl, l, omega arith, tt)
earliest-some now t (g ∷ gs) l (h, hs) = elim (Bool-cases (ltb g.next_update t)) [
  | inl e ↦
      let (u, eq, a, b, c) = earliest-some now g.next_update gs h hs in
      rw e (u, eq, a, ground arith, (b, c))
  | inr e ↦
      let (u, eq, a, b, c) = earliest-some now t gs l hs in rw e (u, eq, a, b, (ground arith, c))
]

get_next_update-Waits :
    (now : ℕ) (gs : List Game) → Ahead now gs → Waits now gs (get_next_update gs)
unfolding get_next_update earliest Waits
get_next_update-Waits now [] h = refl
get_next_update-Waits now (g ∷ gs) (h, hs) =
    let (u, eq, a, b, c) = earliest-some now g.next_update gs h hs in rw eq (a, (b, c))

request_updates-games : (xs : List ℕ) (s : PlayGames) → (request_updates xs s).games ≡ s.games
unfolding request_updates
request_updates-games [] s = refl
request_updates-games (x ∷ xs) s = refl

handle_updates-games :
    (now : ℕ) (s : PlayGames) → (handle_updates now s).games ≡ (toggle_games now s.games).0.0
unfolding handle_updates send_games
handle_updates-games now s =
    rw request_updates-games
      (elim (Bool-cases (toggle_games now s.games).1) [ inl e ↦ rw e refl | inr e ↦ rw e refl ])

-- After a turn at some time, whatever messages came in it, the loop waits without a limit only when
-- it holds no game; else it waits until a later time, which is no later than any game's update.
pub turn-Waits :
    (now : ℕ) (messages : List (Bool × List ℕ)) (s : PlayGames)
    → Waits now (turn now messages s).games (get_next_update (turn now messages s).games)
unfolding turn
turn-Waits now messages s =
    get_next_update-Waits now _
      (subst (Ahead now) (sym (handle_updates-games now _)) (toggle_games-Ahead now _))
