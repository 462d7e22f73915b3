-- ===== src/Tests/Farming.antt =====
-- Owned games, the card farmer and what PlayGames makes of its messages.
use christians_steam_framewo.Base.{
  ℕ, true, ◌&&◌, List, [], ◌∷◌, Option, none, some, ok, codes, Map, find_key, values, contains,
  ◌==◌, ==_iff, Bool-cases, inl, inr, ◌≡◌, ◌↔◌, refl,
}
use christians_steam_framewo.OwnedGames.{
  GameInfo, GameData, GameChanged, get_info, get_owned_info, handle_update,
}
use christians_steam_framewo.OwnedGames.Changes.{Told, handle_update-Told}
use christians_steam_framewo.PlayGames
use christians_steam_framewo.PlayGames.{idle, app_ids}
use christians_steam_framewo.PlayGames.Held.{holds}
use christians_steam_framewo.PackageData.{empty}
use christians_steam_framewo.PackageData.Index.{empty-Indexed}
use christians_steam_framewo.CardFarmer.{
  FarmInfo, Client, PlayMessage, CardFarmer, is_refundable, is_less,
}
use christians_steam_framewo.CardFarmer.Select.{
  select_farm_games, select_single_game, select_multiple_games, select_from, is_better,
  multiple_candidates, fill_result,
}
use christians_steam_framewo.CardFarmer.Order.{is_preferred}
use christians_steam_framewo.CardFarmer.Strategy.{Strategy, select_farm_games-Strategy}
use christians_steam_framewo.CardFarmer.Bounds.{Within, select_farm_games-Within}
use christians_steam_framewo.CardFarmer.Refund.{Refundable, is_refundable_iff}
use christians_steam_framewo.CardFarmer.Run.{BadgeInfo, handle_badge_data, handle_all, farm_games}
use christians_steam_framewo.CardFarmer.Badges.{wanted, Keyed, handle_badge_data-wanted}
use christians_steam_framewo.CardFarmer.Playing.{Agree, farm_games-holds}
use christians_steam_framewo.CardFarmer.Playtime.{InTime, handle_all-InTime}

abbrev owned : Map GameInfo
owned = (10, record { name = codes "a"; last_played = 0; playtime_forever = 40 }) ∷ []

abbrev response : List GameData
response =
    record {
      appid = some 10;
      name = some (codes "a");
      rtime_last_played = some 0;
      playtime_forever = some 70;
    }
    ∷ []

handle_update-Told_example :
    Told 10
      (get_owned_info 10 (some owned))
      (get_owned_info 10 (handle_update (10 ∷ []) response (some owned)).0)
      (handle_update (10 ∷ []) response (some owned)).1
handle_update-Told_example = handle_update-Told (10 ∷ []) response (some owned) 10

abbrev game : ℕ → ℕ → ℕ → ℕ → FarmInfo
game app_id remaining received playtime = record {
  app_id = app_id;
  cards_remaining = remaining;
  cards_received = received;
  playtime = playtime;
}

-- Three games between the limits, one of them without cards, and a fourth with most cards left.
abbrev games : List FarmInfo
games = game 1 3 0 40 ∷ game 2 0 0 50 ∷ game 3 2 0 60 ∷ game 4 5 0 70 ∷ []

-- The two with the fewest cards left are run.
select_farm_games_test : select_farm_games games ≡ 3 ∷ 1 ∷ []
unfolding select_farm_games select_single_game select_from is_better select_multiple_games
    multiple_candidates fill_result is_less
select_farm_games_test = refl

select_farm_games-Strategy_example : Strategy is_preferred games (select_farm_games games)
select_farm_games-Strategy_example = select_farm_games-Strategy games

select_farm_games-Within_example : Within games (select_farm_games games)
select_farm_games-Within_example = select_farm_games-Within games

abbrev client : Client
client = record { owned_games = some owned; licenses = none; packages = empty }

is_refundable_iff_example :
    (is_refundable 2000000 client (game 10 3 0 40) ≡ true)
    ↔ Refundable 2000000 client (game 10 3 0 40)
is_refundable_iff_example = is_refundable_iff 2000000 client (game 10 3 0 40) empty-Indexed

abbrev farmer : CardFarmer
farmer = record {
  games = (10, game 10 3 1 40) ∷ [];
  playing = [];
  last_badge_update = 0;
  sent = [];
  badge_updates = [];
}

farmer-Agree : Agree farmer idle
unfolding app_ids contains
farmer-Agree = record { held = λ x. refl; in_order = tt }

farm_games-holds_example :
    (messages : List PlayMessage) × ((farm_games true farmer).sent ≡ messages)
    × Agree (farm_games true farmer) (PlayGames.handle_all 5 messages idle)
    × ((x : ℕ)
        → holds x (PlayGames.handle_all 5 messages idle)
          ≡ (true && contains x (select_farm_games (values farmer.games))))
farm_games-holds_example = farm_games-holds 5 true farmer idle farmer-Agree

farmer-Keyed : Keyed farmer.games
unfolding find_key
farmer-Keyed k = elim (Bool-cases (10 == k)) [ inl e ↦ rw e ((==_iff 10 k).0 e) | inr e ↦ rw e tt ]

farmer-InTime : (a : ℕ) → InTime (some owned) a (find_key a farmer.games)
unfolding find_key InTime get_owned_info get_info
farmer-InTime a = elim (Bool-cases (10 == a)) [
  | inl e ↦
      rw e (record { name = codes "a"; last_played = 0; playtime_forever = 40 }, rw e refl, refl)
  | inr e ↦ rw e tt
]

-- What OwnedGames has once it is told of the new playtime, and what it reports.
abbrev updated : Option (Map GameInfo) × List GameChanged
updated = handle_update (10 ∷ []) response (some owned)

handle_all-InTime_example :
    InTime updated.0 10
      (find_key 10 (handle_all (record client { owned_games = updated.0 }) updated.1 farmer).games)
handle_all-InTime_example =
    handle_all-InTime client (10 ∷ []) response farmer farmer-Keyed farmer-InTime 10

abbrev badges : Map BadgeInfo
badges = (10, record { cards_earned = 5; cards_received = 2 }) ∷ []

handle_badge_data-wanted_example :
    (s : CardFarmer) × (handle_badge_data 2000000 9 client (some badges) farmer ≡ ok s)
    × Keyed s.games
    × ((id : ℕ) → find_key id s.games ≡ wanted 2000000 client id (find_key id badges))
unfolding find_key
handle_badge_data-wanted_example =
    handle_badge_data-wanted 2000000 9 client badges farmer farmer-Keyed (refl, tt)
