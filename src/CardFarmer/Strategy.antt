-- ===== src/CardFarmer/Strategy.antt =====
-- The farming strategy that the head of Sources/Modules/CardFarmer.cpp describes.
use mathlib.Core.List.{Permᴰ}
use christians_steam_framewo.Base.{
  ℕ, Bool, not, ◌==◌, true, ◌&&◌, List, [], ◌∷◌, if◌then◌else◌, ltb, leb, take, Sorted, sort-Permᴰ,
  sort-Sorted, ◌≡◌, refl, ap, subst, Bool-cases, inl, inr, arith,
}
use christians_steam_framewo.CardFarmer.{
  FarmInfo, is_less, max_games, multiple_games_time_min, multiple_games_time_max,
}
use christians_steam_framewo.CardFarmer.Select.{
  multiple_candidates, fill_result, select_multiple_games, has_received, is_long, is_short,
  select_farm_games,
}
use christians_steam_framewo.CardFarmer.Order.{
  is_less_asymmetric, is_less_transitive, Order, is_preferred, is_less-is_preferred, Best, NoneFits,
  select_single_game-Best,
}

unfoldable pub ids : List FarmInfo → List ℕ
ids [] = []
ids (game ∷ games) = game.app_id ∷ ids games

-- The games that have cards left.
unfoldable pub farmable : List FarmInfo → List FarmInfo
farmable [] = []
farmable (game ∷ games) =
    let rest = farmable games in if ltb 0 game.cards_remaining then game ∷ rest else rest

-- The conditions of the strategy for a single game: it has received cards; it has been played for two
-- hours or more, where the head of the file says "more than"; for less than half an hour.
unfoldable pub received_cards : FarmInfo → Bool
received_cards game = not (game.cards_received == 0)

unfoldable pub played_two_hours : FarmInfo → Bool
played_two_hours game = not (ltb game.playtime 120)

unfoldable pub played_below_half_hour : FarmInfo → Bool
played_below_half_hour game = not (leb 30 game.playtime)

has_received-received_cards : has_received ≡ received_cards
unfolding received_cards
has_received-received_cards =
    let same : (g : FarmInfo) → has_received g ≡ received_cards g = λ g. ground arith in
    λ i g. same g i

is_long-played_two_hours : is_long ≡ played_two_hours
unfolding played_two_hours
is_long-played_two_hours =
    let same : (g : FarmInfo) → is_long g ≡ played_two_hours g = λ g. ground arith in
    λ i g. same g i

is_short-played_below_half_hour : is_short ≡ played_below_half_hour
unfolding played_below_half_hour
is_short-played_below_half_hour =
    let same : (g : FarmInfo) → is_short g ≡ played_below_half_hour g = λ g. ground arith in
    λ i g. same g i

NoneFits-swap :
    {c d : FarmInfo → Bool} (games : List FarmInfo) → c ≡ d → NoneFits c games → NoneFits d games
NoneFits-swap games e h = subst (λ (c : FarmInfo → Bool). NoneFits c games) e h

Best-swap :
    {c d : FarmInfo → Bool} (games : List FarmInfo) (game : FarmInfo)
    → c ≡ d
    → Best is_less c games game
    → Best is_less d games game
Best-swap games game e h = subst (λ (c : FarmInfo → Bool). Best is_less c games game) e h

-- The strategy, as a specification: which app ids it allows for some games, by an order of games.
pub data Strategy (less : Order) (games : List FarmInfo) : List ℕ → Type 0 where
  with_received :
      {game : FarmInfo}
      → Best less received_cards games game
      → Strategy less games (game.app_id ∷ [])
  with_long_playtime :
      {game : FarmInfo}
      → NoneFits received_cards games
      → Best less played_two_hours games game
      → Strategy less games (game.app_id ∷ [])
  with_short_playtime :
      {game : FarmInfo}
      → NoneFits received_cards games
      → NoneFits played_two_hours games
      → Best less played_below_half_hour games game
      → Strategy less games (game.app_id ∷ [])
  with_several :
      {sorted : List FarmInfo}
      → NoneFits received_cards games
      → NoneFits played_two_hours games
      → NoneFits played_below_half_hour games
      → Permᴰ sorted (farmable games)
      → Sorted less sorted
      → Strategy less games (ids (take max_games sorted))

multiple_candidates-farmable :
    (games : List FarmInfo)
    → NoneFits is_long games
    → NoneFits is_short games
    → multiple_candidates games ≡ farmable games
unfolding multiple_candidates farmable
multiple_candidates-farmable [] l s = refl
multiple_candidates-farmable (game ∷ games) (l, ls) (s, ss) =
    let rest = multiple_candidates-farmable games ls ss in
    elim (Bool-cases (ltb 0 game.cards_remaining)) [
      | inl e ↦
          let between : (ltb 0 game.cards_remaining
                && leb multiple_games_time_min game.playtime
                && ltb game.playtime multiple_games_time_max)
              ≡ true =
            ground arith in
          rw (between, e) (ap (◌∷◌ game) rest)
      | inr e ↦ rw e rest
    ]

fill_result-take : (games : List FarmInfo) → fill_result [] games ≡ ids (take max_games games)
unfolding fill_result ids
fill_result-take [] = refl
fill_result-take (a ∷ []) = refl
fill_result-take (a ∷ b ∷ games) = refl

by_is_less : (games : List FarmInfo) → Strategy is_less games (select_farm_games games)
unfolding select_farm_games select_multiple_games
by_is_less games = elim (select_single_game-Best has_received games) [
  | inr (game, e, best) ↦
      rw (select_farm_games, e)
        (Strategy.with_received (Best-swap games game has_received-received_cards best))
  | inl (e, r) ↦
      let r' : NoneFits received_cards games = NoneFits-swap games has_received-received_cards r in
      elim (select_single_game-Best is_long games) [
        | inr (game, f, best) ↦
            rw (select_farm_games, e, f)
              (Strategy.with_long_playtime r' (Best-swap games game is_long-played_two_hours best))
        | inl (f, l) ↦
            let l' : NoneFits played_two_hours games =
              NoneFits-swap games is_long-played_two_hours l in
            elim (select_single_game-Best is_short games) [
              | inr (game, g, best) ↦
                  rw (select_farm_games, e, f, g)
                    (Strategy.with_short_playtime r' l'
                      (Best-swap games game is_short-played_below_half_hour best))
              | inl (g, s) ↦
                  rw
                    (
                      select_farm_games,
                      e,
                      f,
                      g,
                      select_multiple_games,
                      fill_result-take,
                      multiple_candidates-farmable games l s,
                    )
                    (Strategy.with_several r' l'
                      (NoneFits-swap games is_short-played_below_half_hour s)
                      (sort-Permᴰ is_less (farmable games))
                      (sort-Sorted is_less is_less_asymmetric is_less_transitive (farmable games)))
            ]
      ]
]

-- Whatever games there are to farm, the app ids selected are those that the strategy allows if games
-- with fewer cards remaining come first, and of those the ones with a higher playtime: the best game
-- that has received cards, else that was played for two hours or more (the head of the file says
-- "more than"), else for less than half an hour, else the best two, at most, of the others.
pub select_farm_games-Strategy :
    (games : List FarmInfo) → Strategy is_preferred games (select_farm_games games)
select_farm_games-Strategy games =
    subst (λ less. Strategy less games (select_farm_games games)) is_less-is_preferred
      (by_is_less games)
