-- ===== src/OwnedGames.antt =====
-- Sources/Modules/OwnedGames.cpp and Headers/Modules/OwnedGames.hpp: what Steam says about the games
-- of the account. The response of `Player.GetOwnedGames` is an argument; a time is in seconds since
-- the epoch, and a playtime in minutes, which is not negative.
pub mod Changes
use christians_steam_framewo.Base.{
  ℕ, Bool, true, false, not, ◌&&◌, List, [], ◌∷◌, ◌++◌, Option, none, some, Bytes, bytes_eq,
  if◌then◌else◌, ◌==◌, Map, find_key, set_key,
}

-- OwnedGames::GameInfo
pub record GameInfo : Type 0 where
  pub name : Bytes
  pub last_played : ℕ
  pub playtime_forever : ℕ

-- A game of the response, with the fields that the code reads.
pub record GameData : Type 0 where
  pub appid : Option ℕ
  pub name : Option Bytes
  pub rtime_last_played : Option ℕ
  pub playtime_forever : Option ℕ

-- GameChanged
pub record GameChanged : Type 0 where
  pub app_id : ℕ
  pub new_game : Bool

abbrev pub number_or_zero : Option ℕ → ℕ
number_or_zero none = 0
number_or_zero (some n) = n

abbrev pub name_or_empty : Option Bytes → Bytes
name_or_empty none = []
name_or_empty (some s) = s

abbrev pub make_info : GameData → GameInfo
make_info game = record {
  name = name_or_empty game.name;
  last_played = number_or_zero game.rtime_last_played;
  playtime_forever = number_or_zero game.playtime_forever;
}

-- operator==
unfoldable pub info_eq : GameInfo → GameInfo → Bool
unfolding bytes_eq
info_eq a b =
    bytes_eq a.name b.name
    && a.last_played == b.last_played
    && a.playtime_forever == b.playtime_forever

-- getInfo, of the games
unfoldable pub get_info : ℕ → Map GameInfo → Option GameInfo
get_info app_id games = find_key app_id games

-- What is reported for a game, against the games on the whiteboard, if there are some.
unfoldable pub report : Option (Map GameInfo) → ℕ → GameInfo → List GameChanged
unfolding info_eq get_info
report none app_id game = []
report (some existing) app_id game = elim (get_info app_id existing) [
  | none ↦ record { app_id = app_id; new_game = true } ∷ []
  | some old ↦ if info_eq old game then [] else record { app_id = app_id; new_game = false } ∷ []
]

-- The loop of `getGames_`: the games, and the change list. The games on the whiteboard, which are
-- compared, may be the very object that the loop writes to.
unfoldable pub get_games :
    (existing_games : Map GameInfo → Option (Map GameInfo))
    → List GameData
    → Map GameInfo
    → Map GameInfo × List GameChanged
unfolding report
get_games existing_games [] games = (games, [])
get_games existing_games (game ∷ rest) games = elim game.appid [
  | none ↦ get_games existing_games rest games
  | some app_id ↦
      let info = make_info game in
      let (games', changed) = get_games existing_games rest (set_key app_id info games) in
      (games', report (existing_games games) app_id info ++ changed)
]

-- getOwnedGames: a new object, compared with the one on the whiteboard, which it then replaces.
unfoldable pub get_owned_games :
    List GameData → Option (Map GameInfo) → Option (Map GameInfo) × List GameChanged
unfolding get_games
get_owned_games response owned =
    let (games, changed) = get_games (λ games. owned) response [] in (some games, changed)

-- handle of `UpdateGames`: the object on the whiteboard itself is updated, and compared.
unfoldable pub handle_update :
    (app_ids : List ℕ)
    → List GameData
    → Option (Map GameInfo)
    → Option (Map GameInfo) × List GameChanged
unfolding get_games
handle_update [] response owned = (owned, [])
handle_update (app_id ∷ rest) response none = (none, [])
handle_update (app_id ∷ rest) response (some games) =
    let (games', changed) = get_games (λ games. some games) response games in (some games', changed)

-- getInfo, of the item on the whiteboard
unfoldable pub get_owned_info : ℕ → Option (Map GameInfo) → Option GameInfo
unfolding get_info
get_owned_info app_id none = none
get_owned_info app_id (some games) = get_info app_id games
