-- ===== src/Tests/Modules.antt =====
-- The client's modules: games, queries and cookies.
use mathlib.Core.List.{Perm}
use christians_steam_framewo.Base.{
  ℕ, ◌+◌, Bool, true, false, not, List, [], ◌∷◌, ◌++◌, map, codes, some, ok, ◌≡◌, ◌⊎◌, ◌↔◌, refl,
  if◌then◌else◌, ◌==◌,
}
use christians_steam_framewo.PlayGames
use christians_steam_framewo.PlayGames.{
  Game, PlayGames, idle, make_game, turn, get_next_update, stop_games, is_listed,
}
use christians_steam_framewo.PlayGames.Games.{asked, stopped, stop_games-games, stop_games-paused}
use christians_steam_framewo.PlayGames.Schedule.{Waits, turn-Waits}
use christians_steam_framewo.RateLimit.{
  Act, RateLimitQueue, make_queue, enqueue, start_query, start_first, run_query,
}
use christians_steam_framewo.RateLimit.Paced.{Paced, begun, Runs, made, enqueues, Live, Runs-Paced}
use christians_steam_framewo.StringCompare.{lower}
use christians_steam_framewo.CookieJar.{
  Cookie, Url, store, get, check_domain, update_headers, match,
}
use christians_steam_framewo.CookieJar.Store.{
  look_up, stored, Distinct, Absent, look_up-store, store-updated_iff,
}
use christians_steam_framewo.CookieJar.Domain.{
  Dotted, AllDotted, Ends, sent, separated, get-separated, check_domain_iff,
}
use christians_steam_framewo.CookieJar.Updates.{update_headers-kept}
use christians_steam_framewo.Messageboard.{Waiters, send}
use christians_steam_framewo.Messageboard.Sends.{Keyed, registered, Delivers, send-Delivers}
use christians_steam_framewo.Vector.{erase}
use christians_steam_framewo.Vector.Erase.{reject, Erases, erase-Erases}

-- Two games are started, one of them again, and one is stopped after a pause.
abbrev turns : List (ℕ × List (Bool × List ℕ))
turns = (0, (true, 10 ∷ 20 ∷ 10 ∷ []) ∷ []) ∷ (600, []) ∷ (605, (false, 10 ∷ []) ∷ []) ∷ []

turn-Waits_example :
    Waits 600
      (turn 600 [] (turn 0 ((true, 10 ∷ []) ∷ []) idle)).games
      (get_next_update (turn 600 [] (turn 0 ((true, 10 ∷ []) ∷ []) idle)).games)
turn-Waits_example = turn-Waits 600 [] (turn 0 ((true, 10 ∷ []) ∷ []) idle)

-- One game that is paused and one that is not.
abbrev playing : PlayGames
playing = record {
  games = record (make_game 10 0) { paused = true } ∷ make_game 20 0 ∷ [];
  playing = some (10 ∷ 20 ∷ []);
  sent = (20 ∷ []) ∷ [];
  requested = (10 ∷ []) ∷ [];
}

stop_games-games_test :
    Perm (stop_games (20 ∷ []) playing).games (reject (asked (20 ∷ [])) playing.games)
stop_games-games_test = stop_games-games (20 ∷ []) playing

stop_games-paused_example :
    Perm (stop_games (10 ∷ []) playing).games (reject (asked (10 ∷ [])) playing.games)
    × ((stop_games (10 ∷ []) playing).playing ≡ some (10 ∷ 20 ∷ []))
    × ((stop_games (10 ∷ []) playing).sent ≡ (20 ∷ []) ∷ [])
    × ((stop_games (10 ∷ []) playing).requested ≡ (10 ∷ []) ∷ [])
unfolding stopped is_listed
stop_games-paused_example = stop_games-paused (10 ∷ []) playing refl

-- A queue made at 5, in which query 7 was enqueued at 6.
abbrev first : RateLimitQueue
first = record {
  queue = [];
  in_progress = some 7;
  expiry = 5;
  waiting = false;
  posted = [];
  acts = Act.began 7 6 ∷ [];
}

first-Runs : Runs 30 5 (7 ∷ []) first
unfolding enqueue start_query start_first run_query
first-Runs = enqueues [] (make_queue 5) first 6 7 made refl

Runs-Paced_example :
    (Paced 30 (Act.began 7 6 ∷ []) (some 7) 5 × (begun (Act.began 7 6 ∷ []) ++ [] ≡ 7 ∷ []))
    × Live first
Runs-Paced_example = Runs-Paced 30 5 (7 ∷ []) first first-Runs

abbrev session : Cookie
session = record {
  domain = codes ".valve.com";
  path = [];
  name = codes "sessionid";
  value = codes "1";
}

-- The same key, and no value.
abbrev forget : Cookie
forget = record session { domain = codes ".VALVE.com"; value = [] }

abbrev jar : List Cookie
jar = session ∷ []

jar-Distinct : Distinct jar
unfolding Distinct Absent look_up
jar-Distinct = (refl, tt)

jar-AllDotted : AllDotted jar
unfolding AllDotted Dotted
jar-AllDotted = ((codes "valve.com", refl), tt)

look_up-store_example :
    Distinct (store forget jar).0
    × (look_up session (store forget jar).0 ≡ (
        if match forget session then stored forget (look_up session jar) else look_up session jar))
look_up-store_example = look_up-store forget session jar jar-Distinct

store-updated_iff_test : ((store session jar).1 ≡ false) ↔ ((store session jar).0 ≡ jar)
store-updated_iff_test = store-updated_iff session jar

abbrev url : Url
url = record { has_name = true; host_name = codes "store.Valve.com" }

get-separated_example : get url jar ≡ ok (separated (sent (codes "store.Valve.com") jar))
get-separated_example = get-separated url jar refl jar-AllDotted

update_headers-kept_test :
    Distinct (update_headers url (codes "a=b; Domain=x.com" ∷ []) jar).0
    × AllDotted (update_headers url (codes "a=b; Domain=x.com" ∷ []) jar).0
update_headers-kept_test =
    update_headers-kept url (codes "a=b; Domain=x.com" ∷ []) jar jar-Distinct jar-AllDotted

check_domain_iff_example :
    (b : Bool) × (check_domain (codes "a.b") (codes ".b") ≡ ok b)
    × ((b ≡ true)
        ↔ ((map lower (codes "a.b") ≡ map lower (codes "b")) ⊎ Ends (codes "a.b") (codes ".b")))
check_domain_iff_example = check_domain_iff (codes "a.b") (codes "b")

erase-Erases_test :
    Erases
      (λ x. x == 2)
      (λ x s. s + x)
      []
      (2 ∷ 3 ∷ 4 ∷ [])
      0
      (erase (λ x s. (s + x, x == 2)) (2 ∷ 3 ∷ 4 ∷ []) 0)
erase-Erases_test = erase-Erases (λ x. x == 2) (λ x s. s + x) (2 ∷ 3 ∷ 4 ∷ []) 0

-- Waiters 1 and 3 are registered for type 7, and 3 is gone.
abbrev alive : ℕ → Bool
alive w = not (w == 3)

abbrev board : Waiters
board = (7, 1 ∷ 3 ∷ []) ∷ []

board-Keyed : Keyed board
unfolding Keyed registered
board-Keyed = (refl, tt)

send-Delivers_example :
    Delivers {A = ℕ} alive 5
      (registered 7 board)
      (λ _. [])
      (registered 7 (send {A = ℕ} alive 5 7 board (λ _. [])).0)
      (send {A = ℕ} alive 5 7 board (λ _. [])).1
send-Delivers_example = send-Delivers alive 5 7 board (λ _. []) board-Keyed
