-- ===== src/CardFarmer.antt =====
-- Sources/Modules/CardFarmer.cpp: which games are run to receive their trading cards. A duration is
-- in minutes, a time in seconds; the clocks are arguments. What the module asks other modules for is
-- a record of what they have put on the whiteboard. Log output is not modelled.
pub mod Select
pub mod Run
pub mod Refund
pub mod Order
pub mod Strategy
pub mod Bounds
pub mod Badges
pub mod Playing
pub mod Playtime
use christians_steam_framewo.Base.{
  ℕ, ◌+◌, ◌*◌, ◌-◌, Bool, true, false, not, ◌&&◌, List, [], ◌∷◌, ◌++◌, Option, none, some,
  if◌then◌else◌, ltb, leb, ◌==◌, Map, find_key,
}
use christians_steam_framewo.LicenseList.{License, activation_code, complimentary, get_license_info}
use christians_steam_framewo.PackageData.{PackageInfo, MyPackageData, lookup_app}
use christians_steam_framewo.OwnedGames.{GameInfo, get_owned_info}

abbrev pub max_games : ℕ
max_games = 2

abbrev pub multiple_games_time_min : ℕ
multiple_games_time_min = 30

abbrev pub multiple_games_time_max : ℕ
multiple_games_time_max = 120

abbrev pub steam_refund_play_time : ℕ
steam_refund_play_time = 150

-- 15 days, in seconds
abbrev pub steam_refund_purchase_time : ℕ
steam_refund_purchase_time = 1296000

pub record FarmInfo : Type 0 where
  pub app_id : ℕ
  pub cards_remaining : ℕ
  pub cards_received : ℕ
  pub playtime : ℕ

-- What OwnedGames, LicenseList and PackageData have.
pub record Client : Type 0 where
  pub owned_games : Option (Map GameInfo)
  pub licenses : Option (Map License)
  pub packages : MyPackageData

-- A message to PlayGames: whether to start or to stop the games.
abbrev pub PlayMessage : Type 0
PlayMessage = Bool × List ℕ

-- The module, and what it has sent, the first message first: to PlayGames, and to BadgeData.
pub record CardFarmer : Type 0 where
  pub games : Map FarmInfo
  pub playing : List ℕ
  pub last_badge_update : ℕ
  pub sent : List PlayMessage
  pub badge_updates : List ℕ

-- operator<, the comparison of two tuples
unfoldable pub is_less : FarmInfo → FarmInfo → Bool
is_less a b =
    if ltb a.cards_remaining b.cards_remaining
    then true
    else if ltb b.cards_remaining a.cards_remaining
    then false
    else ltb b.playtime a.playtime

-- The conditions on a license in `isRefundable`; `now` is the system's time.
unfoldable pub is_refundable_license : ℕ → License → Bool
is_refundable_license now license =
    not (license.payment_method == activation_code)
    && not (license.payment_method == complimentary)
    && leb now (license.time_created + steam_refund_purchase_time)

-- The loop of `isRefundable`.
unfoldable pub has_refundable : ℕ → Option (Map License) → List PackageInfo → Bool
unfolding is_refundable_license get_license_info
has_refundable now licenses [] = false
has_refundable now licenses (package_info ∷ rest) =
    let others = has_refundable now licenses rest in
    elim (get_license_info licenses package_info.package_id) [
      | none ↦ others
      | some license ↦ if is_refundable_license now license then true else others
    ]

unfoldable pub is_refundable : ℕ → Client → FarmInfo → Bool
unfolding has_refundable lookup_app
is_refundable now client game =
    if leb game.playtime steam_refund_play_time
    then has_refundable now client.licenses (lookup_app game.app_id client.packages)
    else false

unfoldable pub find_game : ℕ → CardFarmer → Option FarmInfo
find_game app_id s = find_key app_id s.games
