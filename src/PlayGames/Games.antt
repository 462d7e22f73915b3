-- ===== src/PlayGames/Games.antt =====
-- What Steam was told last, and which games the module holds.
use mathlib.Core.List.{Perm}
use mathlib.Core.List.Perm
use christians_steam_framewo.Base.{
  ℕ, Bool, not, ◌&&◌, List, [], ◌∷◌, ◌++◌, append_assoc, append-nil, if◌then◌else◌, ◌≡◌, refl, ◌∙◌,
  Bool-cases, inl, inr,
}
use christians_steam_framewo.Vector.{erase}
use christians_steam_framewo.Vector.Erase.{reject, run, Erases, erase-Erases}
use christians_steam_framewo.PlayGames
use christians_steam_framewo.PlayGames.Collect.{collect, collect-Perm}
use christians_steam_framewo.PlayGames.{
  Game, PlayGames, is_listed, game_id, games_played, send_games, report_games, request_updates,
  note_stopped, announce_stopped, stop_games, toggle,
}

abbrev played : Game → List ℕ
played g = if g.paused then [] else game_id g.app_id ∷ []

-- The ids that a request to stop some games is to update: of the games to stop that are not paused.
abbrev stopping : List ℕ → Game → List ℕ
stopping xs g = if is_listed g.app_id xs && not g.paused then g.app_id ∷ [] else []

unfoldable pub stopped : List ℕ → List Game → List ℕ
unfolding collect is_listed
stopped xs gs = collect (stopping xs) gs

abbrev pub asked : List ℕ → Game → Bool
asked xs g = is_listed g.app_id xs

run-note_stopped :
    (xs : List ℕ) (order : List Game) (updates : List ℕ)
    → run (note_stopped xs) order updates ≡ updates ++ stopped xs order
unfolding run note_stopped stopped collect
run-note_stopped xs [] updates = rw append-nil
run-note_stopped xs (g ∷ gs) updates = elim (Bool-cases (is_listed g.app_id xs && not g.paused)) [
  | inl e ↦
      rw e
        (run-note_stopped xs gs (updates ++ g.app_id ∷ []) ∙ append_assoc updates (g.app_id ∷ []) _)
  | inr e ↦ rw e (run-note_stopped xs gs updates)
]

stopped-Perm : (xs : List ℕ) {gs hs : List Game} → Perm gs hs → Perm (stopped xs gs) (stopped xs hs)
unfolding stopped
stopped-Perm xs p = collect-Perm (stopping xs) p

-- The games of the message sent last; before the first, Steam takes it that none is played.
abbrev pub told : List (List ℕ) → List ℕ
told [] = []
told (m ∷ ms) = m

-- Steam was last told of the games that are not paused.
abbrev pub InSync : PlayGames → Type 0
InSync s = Perm (told s.sent) (games_played s.games)

-- What `erase` leaves of the games, and the updates it collects.
erased-Perm :
    (xs : List ℕ) (s : PlayGames)
    → (r : (List Game × ℕ) × List ℕ) → Erases (asked xs) (note_stopped xs) [] s.games [] r
    → Perm r.0.0 (reject (asked xs) s.games) × Perm r.1 (stopped xs s.games)
erased-Perm xs s r h = (h.left, rw (h.effects, run-note_stopped) (stopped-Perm xs h.tested))

stop_games_eq :
    (xs : List ℕ) (s : PlayGames)
    → (games : List Game) × (updates : List ℕ) × (stop_games xs s
        ≡ announce_stopped updates (record s { games = games }))
      × Perm games (reject (asked xs) s.games)
      × Perm updates (stopped xs s.games)
unfolding stop_games
stop_games_eq xs s =
    let r = erase (λ g updates. (note_stopped xs g updates, is_listed g.app_id xs)) s.games [] in
    let (p, q) = erased-Perm xs s r (erase-Erases (asked xs) (note_stopped xs) s.games []) in
    (r.0.0, r.1, refl, p, q)

announce_stopped-games :
    (updates : List ℕ) (s : PlayGames) → (announce_stopped updates s).games ≡ s.games
unfolding announce_stopped send_games report_games request_updates
announce_stopped-games [] s = refl
announce_stopped-games (x ∷ xs) s = refl

-- A request to stop some games leaves the games that it does not name, and no others.
pub stop_games-games :
    (xs : List ℕ) (s : PlayGames) → Perm (stop_games xs s).games (reject (asked xs) s.games)
stop_games-games xs s =
    let (games, updates, e, p, q) = stop_games_eq xs s in rw (e, announce_stopped-games) p

-- When every game that a request stops is paused, the games go, but what the whiteboard says is
-- being played stays what it was, and nothing is sent or requested.
pub stop_games-paused :
    (xs : List ℕ) (s : PlayGames)
    → stopped xs s.games ≡ []
    → Perm (stop_games xs s).games (reject (asked xs) s.games)
      × ((stop_games xs s).playing ≡ s.playing)
      × ((stop_games xs s).sent ≡ s.sent)
      × ((stop_games xs s).requested ≡ s.requested)
unfolding announce_stopped
stop_games-paused xs s h =
    let (games, updates, e, p, q) = stop_games_eq xs s in
    let none_left : updates ≡ [] = Perm.eq-nil (rw h at q) in
    rw (e, none_left) (p, refl, refl, refl)
