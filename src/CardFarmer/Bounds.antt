-- ===== src/CardFarmer/Bounds.antt =====
-- How many games are selected, and from which.
use mathlib.Core.List.{Memᴰ, Permᴰ, cons-ne-nil}
use mathlib.Core.List.Memᴰ
use mathlib.Core.List.Permᴰ
use mathlib.Core.List.Perm
use christians_steam_framewo.Base.{
  ℕ, zero, suc, ◌≤◌, Bool, true, List, [], ◌∷◌, ltb, ◌==◌, length, length-take, take, All, contains,
  contains-Permᴰ, All-imp, ◌≡◌, ◌≢◌, ◌⊎◌, refl, sym, ap, subst, ◌∙◌, Bool-cases, List-cases, inl,
  inr, arith,
}
use christians_steam_framewo.CardFarmer.{FarmInfo, max_games}
use christians_steam_framewo.CardFarmer.Select.{select_farm_games}
use christians_steam_framewo.CardFarmer.Order.{is_preferred, Best}
use christians_steam_framewo.CardFarmer.Strategy.{
  ids, farmable, Strategy, select_farm_games-Strategy,
}

-- Two games at most, each of them one with cards left, and none only if no game has cards left.
pub record Within (games : List FarmInfo) (selected : List ℕ) : Type 0 where
  pub few : length selected ≤ max_games
  pub known : All (λ app_id. contains app_id (ids (farmable games)) ≡ true) selected
  pub some_if_any : (selected ≢ []) ⊎ (farmable games ≡ [])

member-contains :
    (games : List FarmInfo) (game : FarmInfo)
    → Memᴰ game games
    → ltb 0 game.cards_remaining ≡ true
    → contains game.app_id (ids (farmable games)) ≡ true
unfolding farmable ids contains
member-contains [] game m h = absurd (Memᴰ.not-nil m)
member-contains (g ∷ games) game m h = elim (Memᴰ.cases_cons m) [
  | inl e ↦
      let left : ltb 0 g.cards_remaining ≡ true = subst (λ g. ltb 0 g.cards_remaining ≡ true) e h in
      let here : (g.app_id == game.app_id) ≡ true =
        subst (λ x. (x.app_id == game.app_id) ≡ true) e (ground arith) in
      rw (left, contains, here) refl
  | inr m' ↦ elim (Bool-cases (ltb 0 g.cards_remaining)) [
    | inl f ↦ rw (f, contains, member-contains games game m' h) (ground arith)
    | inr f ↦ rw f (member-contains games game m' h)
  ]
]

Best-Within :
    (condition : FarmInfo → Bool) (games : List FarmInfo) (game : FarmInfo)
    → Best is_preferred condition games game
    → Within games (game.app_id ∷ [])
Best-Within condition games game best = record {
  few = omega arith;
  known = (member-contains games game best.member (let f = best.fitting in ground arith), tt);
  some_if_any = inl (cons-ne-nil _ _);
}

ids-Permᴰ : {xs ys : List FarmInfo} → Permᴰ xs ys → Permᴰ (ids xs) (ids ys)
unfolding ids
ids-Permᴰ Permᴰ.nil = Permᴰ.nil
ids-Permᴰ (Permᴰ.cons e p) = Permᴰ.cons (ap (λ g. g.app_id) e) (ids-Permᴰ p)
ids-Permᴰ (Permᴰ.swap e f) = Permᴰ.swap (ap (λ g. g.app_id) e) (ap (λ g. g.app_id) f)
ids-Permᴰ (Permᴰ.trans p q) = Permᴰ.trans (ids-Permᴰ p) (ids-Permᴰ q)

-- The first games of a list are among it.
ids-take :
    (n : ℕ) (games : List FarmInfo)
    → All (λ app_id. contains app_id (ids games) ≡ true) (ids (take n games))
unfolding ids contains
ids-take zero games = tt
ids-take (suc n) [] = tt
ids-take (suc n) (game ∷ games) =
    let here : (game.app_id == game.app_id) ≡ true = ground arith in
    (
      rw here refl,
      All-imp (λ app_id. contains app_id (ids games) ≡ true)
          (λ app_id. contains app_id (ids (game ∷ games)) ≡ true) (ids (take n games))
          (λ x h. rw (ids, contains, h) (ground arith)) (ids-take n games),
    )

length-ids : (games : List FarmInfo) → length (ids games) ≡ length games
unfolding ids
length-ids [] = refl
length-ids (game ∷ games) = ap suc (length-ids games)

several-Within :
    (games sorted : List FarmInfo)
    → Permᴰ sorted (farmable games)
    → Within games (ids (take max_games sorted))
unfolding ids
several-Within games sorted p = record {
  few = omega (arith, length-ids (take max_games sorted), length-take max_games sorted);
  known =
      All-imp (λ app_id. contains app_id (ids sorted) ≡ true)
        (λ app_id. contains app_id (ids (farmable games)) ≡ true) (ids (take max_games sorted))
        (λ x h. sym (contains-Permᴰ x (ids-Permᴰ p)) ∙ h) (ids-take max_games sorted);
  some_if_any = elim (List-cases sorted) [
    | inl e ↦ let q = Permᴰ.symm p in inr (Perm.eq-nil ∣ rw e at q ∣₁)
    | inr (game, rest, e) ↦ inl (rw e (cons-ne-nil _ _))
  ];
}

-- At most two games are selected, each of them has cards left, and one is selected unless no game
-- has cards left.
pub select_farm_games-Within : (games : List FarmInfo) → Within games (select_farm_games games)
select_farm_games-Within games = go (select_farm_games-Strategy games)
  where
    go : {selected : List ℕ} → Strategy is_preferred games selected → Within games selected
    go (Strategy.with_received {game} b) = Best-Within _ games game b
    go (Strategy.with_long_playtime {game} r b) = Best-Within _ games game b
    go (Strategy.with_short_playtime {game} r l b) = Best-Within _ games game b
    go (Strategy.with_several {sorted} r l s p o) = several-Within games sorted p
