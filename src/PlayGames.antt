-- ===== src/PlayGames.antt =====
-- Sources/Modules/PlayGames.cpp and Headers/GameID.hpp: the games that Steam is told are being
-- played. Time is in seconds, and `Clock::now()` is an argument of each operation.
pub mod Collect
pub mod Games
pub mod Schedule
pub mod Held
use christians_steam_framewo.Base.{
  ℕ, zero, suc, ◌+◌, Bool, true, false, not, ◌&&◌, List, [], ◌∷◌, ◌++◌, Option, none, some,
  if◌then◌else◌, leb, ltb, ◌==◌,
}
use christians_steam_framewo.BitField.{set_bits}
use christians_steam_framewo.Vector.{erase}

abbrev pub update_interval : ℕ
update_interval = 600

abbrev pub update_duration : ℕ
update_duration = 5

-- GameInfo
pub record Game : Type 0 where
  pub app_id : ℕ
  pub next_update : ℕ
  pub paused : Bool

-- The module's games, the PlayingGames item on the whiteboard, and what was sent, the latest first:
-- the game ids of each CMsgClientGamesPlayed, and the app ids of each UpdateGames.
pub record PlayGames : Type 0 where
  pub games : List Game
  pub playing : Option (List ℕ)
  pub sent : List (List ℕ)
  pub requested : List (List ℕ)

abbrev pub idle : PlayGames
idle = record { games = []; playing = none; sent = []; requested = [] }

abbrev pub make_game : ℕ → ℕ → Game
make_game app_id now = record {
  app_id = app_id;
  next_update = now + update_interval;
  paused = false;
}

-- The range-for with a break of `startGames` and of `stopGames`.
unfoldable pub is_listed : ℕ → List ℕ → Bool
is_listed app_id [] = false
is_listed app_id (x ∷ xs) = if x == app_id then true else is_listed app_id xs

unfoldable pub app_ids : List Game → List ℕ
app_ids [] = []
app_ids (g ∷ gs) = g.app_id ∷ app_ids gs

-- The earliest update; none stands for `time_point::max()`.
unfoldable pub earliest : Option ℕ → List Game → Option ℕ
earliest result [] = result
earliest none (g ∷ gs) = earliest (some g.next_update) gs
earliest (some t) (g ∷ gs) = earliest (some (if ltb g.next_update t then g.next_update else t)) gs

unfoldable pub get_next_update : List Game → Option ℕ
unfolding earliest
get_next_update games = earliest none games

unfoldable pub report_games : PlayGames → PlayGames
unfolding app_ids
report_games s = record s {
  playing = elim (app_ids s.games) [ [] ↦ none | x ∷ xs ↦ some (x ∷ xs) ];
}

-- GameID, with the app type `App` (0) in the 8 bits behind the 24 of the app id.
unfoldable pub game_id : ℕ → ℕ
unfolding set_bits
game_id app_id = set_bits 0 24 app_id (set_bits 24 8 0 0)

unfoldable pub games_played : List Game → List ℕ
unfolding game_id
games_played [] = []
games_played (g ∷ gs) =
    let rest = games_played gs in if g.paused then rest else game_id g.app_id ∷ rest

unfoldable pub send_games : PlayGames → PlayGames
unfolding games_played
send_games s = record s { sent = games_played s.games ∷ s.sent }

-- The loop of `startGames`: the games, and whether one was added.
unfoldable pub add_games : ℕ → List ℕ → List Game → List Game × Bool
unfolding is_listed app_ids
add_games now [] games = (games, false)
add_games now (x ∷ xs) games =
    let listed = is_listed x (app_ids games) in
    let (games', changed) =
      add_games now xs (if listed then games else games ++ make_game x now ∷ []) in
    (games', if listed then changed else true)

unfoldable pub start_games : ℕ → List ℕ → PlayGames → PlayGames
unfolding add_games send_games report_games
start_games now xs s =
    let (games, changed) = add_games now xs s.games in
    let s' = record s { games = games } in if changed then report_games (send_games s') else s'

unfoldable pub request_updates : List ℕ → PlayGames → PlayGames
request_updates [] s = s
request_updates (x ∷ xs) s = record s { requested = (x ∷ xs) ∷ s.requested }

-- The effect of `stopGames`'s predicate on `updates`; its result is `is_listed`.
unfoldable pub note_stopped : List ℕ → Game → List ℕ → List ℕ
unfolding is_listed
note_stopped xs g updates =
    if is_listed g.app_id xs && not g.paused then updates ++ g.app_id ∷ [] else updates

-- What `stopGames` does with the `updates`.
unfoldable pub announce_stopped : List ℕ → PlayGames → PlayGames
unfolding send_games report_games request_updates
announce_stopped [] s = s
announce_stopped (x ∷ xs) s = request_updates (x ∷ xs) (report_games (send_games s))

unfoldable pub stop_games : List ℕ → PlayGames → PlayGames
unfolding erase note_stopped announce_stopped
stop_games xs s =
    let ((games, _), updates) =
      erase (λ g updates. (note_stopped xs g updates, is_listed g.app_id xs)) s.games [] in
    announce_stopped updates (record s { games = games })

unfoldable pub handle : ℕ → Bool → List ℕ → PlayGames → PlayGames
unfolding start_games stop_games
handle now start xs s = if start then start_games now xs s else stop_games xs s

-- The loop's body in `handleUpdates`, for a game whose time has come.
unfoldable pub toggle : ℕ → Game → Game
toggle now g =
    if g.paused
    then record g { paused = false; next_update = now + update_interval }
    else record g { paused = true; next_update = now + update_duration }

-- The loop: the games, the updates to request, and whether a game changed.
unfoldable pub toggle_games : ℕ → List Game → (List Game × List ℕ) × Bool
unfolding toggle
toggle_games now [] = (([], []), false)
toggle_games now (g ∷ gs) =
    let ((gs', updates), changed) = toggle_games now gs in
    if leb g.next_update now
    then ((toggle now g ∷ gs', if g.paused then updates else g.app_id ∷ updates), true)
    else ((g ∷ gs', updates), changed)

-- Without games, the code's early return, the loop does nothing either.
unfoldable pub handle_updates : ℕ → PlayGames → PlayGames
unfolding toggle_games send_games request_updates
handle_updates now s =
    let ((games, updates), changed) = toggle_games now s.games in
    let s' = record s { games = games } in
    request_updates updates (if changed then send_games s' else s')

-- A turn of the loop in `run`, after its wait: the messages that came, and the updates.
unfoldable pub handle_all : ℕ → List (Bool × List ℕ) → PlayGames → PlayGames
unfolding handle
handle_all now [] s = s
handle_all now ((start, xs) ∷ messages) s = handle_all now messages (handle now start xs s)

unfoldable pub turn : ℕ → List (Bool × List ℕ) → PlayGames → PlayGames
unfolding handle_all handle_updates
turn now messages s = handle_updates now (handle_all now messages s)

unfoldable pub run : List (ℕ × List (Bool × List ℕ)) → PlayGames → PlayGames
unfolding turn
run [] s = s
run ((now, messages) ∷ turns) s = run turns (turn now messages s)
