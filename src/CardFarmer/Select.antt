-- ===== src/CardFarmer/Select.antt =====
-- Sources/Modules/CardFarmer.cpp: the selection of the games to run. The games are the values of
-- the `unordered_map`, in its order.
use christians_steam_framewo.Base.{
  ℕ, Bool, true, ◌&&◌, List, [], ◌∷◌, ◌++◌, Option, none, some, if◌then◌else◌, ltb, leb, length,
  sort,
}
use christians_steam_framewo.CardFarmer.{
  FarmInfo, is_less, max_games, multiple_games_time_min, multiple_games_time_max,
}

-- candidate==nullptr || *game<*candidate
unfoldable pub is_better : FarmInfo → Option FarmInfo → Bool
unfolding is_less
is_better game none = true
is_better game (some candidate) = is_less game candidate

-- The loop of `selectSingleGame`.
unfoldable pub select_from : (FarmInfo → Bool) → Option FarmInfo → List FarmInfo → Option FarmInfo
unfolding is_better
select_from condition candidate [] = candidate
select_from condition candidate (game ∷ games) =
    let chosen = ltb 0 game.cards_remaining && condition game && is_better game candidate in
    select_from condition (if chosen then some game else candidate) games

unfoldable pub select_single_game : (FarmInfo → Bool) → List FarmInfo → Option FarmInfo
unfolding select_from
select_single_game condition games = select_from condition none games

-- The candidates of `selectMultipleGames`.
unfoldable pub multiple_candidates : List FarmInfo → List FarmInfo
multiple_candidates [] = []
multiple_candidates (game ∷ games) =
    let candidates = multiple_candidates games in
    if ltb 0 game.cards_remaining
      && leb multiple_games_time_min game.playtime
      && ltb game.playtime multiple_games_time_max
    then game ∷ candidates
    else candidates

-- The loop that fills the result, with its break.
unfoldable pub fill_result : List ℕ → List FarmInfo → List ℕ
fill_result result [] = result
fill_result result (game ∷ games) =
    let result' = result ++ game.app_id ∷ [] in
    let more = fill_result result' games in if leb max_games (length result') then result' else more

unfoldable pub select_multiple_games : List FarmInfo → List ℕ
unfolding multiple_candidates sort is_less fill_result
select_multiple_games games = fill_result [] (sort is_less (multiple_candidates games))

-- The conditions of `selectFarmGames`.
abbrev pub has_received : FarmInfo → Bool
has_received game = ltb 0 game.cards_received

abbrev pub is_long : FarmInfo → Bool
is_long game = leb multiple_games_time_max game.playtime

abbrev pub is_short : FarmInfo → Bool
is_short game = ltb game.playtime multiple_games_time_min

unfoldable pub select_farm_games : List FarmInfo → List ℕ
unfolding select_single_game select_multiple_games
select_farm_games games = elim (select_single_game has_received games) [
  | some game ↦ game.app_id ∷ []
  | none ↦ elim (select_single_game is_long games) [
    | some game ↦ game.app_id ∷ []
    | none ↦ elim (select_single_game is_short games) [
      | some game ↦ game.app_id ∷ []
      | none ↦ select_multiple_games games
    ]
  ]
]
