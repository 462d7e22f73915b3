-- ===== src/CardFarmer/Run.antt =====
-- Sources/Modules/CardFarmer.cpp: the handlers of the module and its loop.
use christians_steam_framewo.Base.{
  ℕ, ◌-◌, Bool, true, false, List, [], ◌∷◌, ◌++◌, Option, none, some, Outcome, ok, aborted, assert,
  ◌>>=◌, ◌>>◌, if◌then◌else◌, ltb, bytes_eq, Map, find_key, set_key, values, contains, sort,
}
use christians_steam_framewo.OwnedGames.{GameInfo, GameChanged, get_owned_info}
use christians_steam_framewo.CardFarmer.{
  FarmInfo, Client, PlayMessage, CardFarmer, is_refundable, find_game,
}
use christians_steam_framewo.CardFarmer.Select.{select_farm_games}

-- BadgeData::BadgeInfo
pub record BadgeInfo : Type 0 where
  pub cards_earned : ℕ
  pub cards_received : ℕ

abbrev pub new_game : ℕ → FarmInfo
new_game app_id = record { app_id = app_id; cards_remaining = 0; cards_received = 0; playtime = 0 }

-- The game that is moved from `games`, or a new one.
unfoldable pub take_game : ℕ → Map FarmInfo → FarmInfo
take_game app_id games = elim (find_key app_id games) [ none ↦ new_game app_id | some game ↦ game ]

-- `emplace` into `myGames`, with the assertion behind it.
unfoldable pub emplace : ℕ → FarmInfo → Map FarmInfo → Outcome (Map FarmInfo)
emplace app_id game my_games = elim (find_key app_id my_games) [
  | none ↦ ok (set_key app_id game my_games)
  | some other ↦ aborted
]

-- The game with what is known of it now.
unfoldable pub refreshed : ℕ → BadgeInfo → GameInfo → Map FarmInfo → FarmInfo
unfolding take_game
refreshed app_id badge info games = record (take_game app_id games) {
  playtime = info.playtime_forever;
  cards_remaining = badge.cards_earned - badge.cards_received;
  cards_received = badge.cards_received;
}

module _ (now : ℕ) (client : Client) (games : Map FarmInfo) where
  -- The loop's body, on `myGames`; the difference in it is never 0.
  unfoldable pub add_badge : ℕ → BadgeInfo → Map FarmInfo → Outcome (Map FarmInfo)
  unfolding get_owned_info take_game is_refundable refreshed emplace
  add_badge app_id badge my_games =
      if ltb badge.cards_received badge.cards_earned
      then (assert (ltb 0 (badge.cards_earned - badge.cards_received))
          >> elim (get_owned_info (take_game app_id games).app_id client.owned_games) [
            | none ↦ ok my_games
            | some info ↦
                let game = refreshed app_id badge info games in
                if is_refundable now client game then ok my_games else emplace app_id game my_games
          ])
      else ok my_games

  unfoldable pub add_badges : Map BadgeInfo → Map FarmInfo → Outcome (Map FarmInfo)
  unfolding add_badge
  add_badges [] my_games = ok my_games
  add_badges ((app_id, badge) ∷ badges) my_games =
      add_badge app_id badge my_games >>= λ my_games'. add_badges badges my_games'

-- handleBadgeData; `now` is the system's time, and `steady_now` that of the steady clock.
unfoldable pub handle_badge_data :
    ℕ → ℕ → Client → Option (Map BadgeInfo) → CardFarmer → Outcome CardFarmer
unfolding add_badges
handle_badge_data now steady_now client none s = ok (record s { games = [] })
handle_badge_data now steady_now client (some badges) s =
    add_badges now client s.games badges [] >>= λ my_games.
    ok (record s { games = my_games; last_badge_update = steady_now })

-- The games of `playing` that are to be stopped.
unfoldable pub games_to_stop : List ℕ → List ℕ → List ℕ
unfolding contains
games_to_stop my_games [] = []
games_to_stop my_games (app_id ∷ playing) =
    let stop = games_to_stop my_games playing in
    if contains app_id my_games then stop else app_id ∷ stop

-- playGames
unfoldable pub play_games : List ℕ → CardFarmer → CardFarmer
unfolding games_to_stop bytes_eq sort
play_games my_games s =
    let stop : PlayMessage = (false, games_to_stop my_games s.playing) in
    let sorted = sort ltb my_games in
    if bytes_eq sorted s.playing
    then record s { sent = s.sent ++ stop ∷ [] }
    else record s { playing = sorted; sent = s.sent ++ stop ∷ (true, sorted) ∷ [] }

-- farmGames; `enabled` is the setting on the whiteboard.
unfoldable pub farm_games : Bool → CardFarmer → CardFarmer
unfolding select_farm_games play_games
farm_games enabled s = play_games (if enabled then select_farm_games (values s.games) else []) s

-- handle, of a GameChanged
unfoldable pub handle : Client → GameChanged → CardFarmer → CardFarmer
unfolding find_game get_owned_info
handle client message s = if message.new_game then s else elim (find_game message.app_id s) [
  | none ↦ s
  | some game ↦ elim (get_owned_info game.app_id client.owned_games) [
    | none ↦ s
    | some info ↦ record s {
      games = set_key message.app_id (record game { playtime = info.playtime_forever }) s.games;
    }
  ]
]

unfoldable pub handle_all : Client → List GameChanged → CardFarmer → CardFarmer
unfolding handle
handle_all client [] s = s
handle_all client (message ∷ messages) s = handle_all client messages (handle client message s)

-- What a turn of the loop in `run` finds when its wait is over: the times, whether the wait ended
-- before its timeout, whether there is badge data that the module has not seen, and which, the
-- changes of games, and the setting.
pub record Wakeup : Type 0 where
  pub now : ℕ
  pub steady_now : ℕ
  pub in_time : Bool
  pub has_badges : Bool
  pub badges : Option (Map BadgeInfo)
  pub changes : List GameChanged
  pub enabled : Bool

-- The wait; without games being played there is no timeout.
unfoldable pub after_wait : Wakeup → CardFarmer → CardFarmer
after_wait w s = elim s.playing [
  | [] ↦ record s { last_badge_update = w.steady_now }
  | app_id ∷ rest ↦ if w.in_time then s else record s {
    badge_updates = s.badge_updates ++ app_id ∷ rest;
    last_badge_update = w.steady_now;
  }
]

-- The loop's body in `run`.
unfoldable pub turn : Client → Wakeup → CardFarmer → Outcome CardFarmer
unfolding after_wait handle_badge_data handle_all farm_games
turn client w s =
    let waited = after_wait w s in
    (if w.has_badges
      then handle_badge_data w.now w.steady_now client w.badges waited
      else ok waited)
    >>= λ s'. ok (farm_games w.enabled (handle_all client w.changes s'))
