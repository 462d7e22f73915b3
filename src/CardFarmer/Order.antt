-- ===== src/CardFarmer/Order.antt =====
-- The order of the games is a strict weak one, and `selectSingleGame` finds a least game in it.
use mathlib.Core.List.{Memᴰ}
use christians_steam_framewo.Base.{
  Bool, true, false, ◌&&◌, ◌||◌, List, [], ◌∷◌, none, some, ltb, ◌==◌, All, ◌≡◌, ◌⊎◌, refl, ◌∙◌,
  Bool-cases, inl, inr, arith,
}
use christians_steam_framewo.CardFarmer.{FarmInfo, is_less}
use christians_steam_framewo.CardFarmer.Select.{is_better, select_from, select_single_game}

pub is_less_asymmetric : (a b : FarmInfo) → is_less a b ≡ true → is_less b a ≡ false
unfolding is_less
is_less_asymmetric a b h = ground arith

-- Being no less is transitive.
pub is_less_transitive :
    (a b c : FarmInfo) → is_less a b ≡ false → is_less b c ≡ false → is_less a c ≡ false
unfolding is_less
is_less_transitive a b c h k = ground arith

is_less_irreflexive : (a : FarmInfo) → is_less a a ≡ false
unfolding is_less
is_less_irreflexive a = ground arith

-- A game with cards left that meets a condition.
abbrev pub fits : (FarmInfo → Bool) → FarmInfo → Bool
fits condition game = ltb 0 game.cards_remaining && condition game

-- An order of games.
abbrev pub Order : Type 0
Order = FarmInfo → FarmInfo → Bool

-- Fewer cards remaining come first, and of those a higher playtime.
unfoldable pub is_preferred : Order
is_preferred a b =
    ltb a.cards_remaining b.cards_remaining
    || (a.cards_remaining == b.cards_remaining && ltb b.playtime a.playtime)

pub is_less-is_preferred : is_less ≡ is_preferred
unfolding is_less is_preferred
is_less-is_preferred =
    let same : (a b : FarmInfo) → is_less a b ≡ is_preferred a b = λ a b. ground arith in
    λ i a b. same a b i

-- No game that fits comes before this one.
abbrev pub Least : Order → (FarmInfo → Bool) → List FarmInfo → FarmInfo → Type 0
Least less condition games best =
    All (λ game. (fits condition game && less game best) ≡ false) games

-- The best game of some that fit a condition: one of them, and none comes before it.
pub record Best (less : Order) (condition : FarmInfo → Bool) (games : List FarmInfo)
    (best : FarmInfo) : Type 0 where
  pub member : Memᴰ best games
  pub fitting : fits condition best ≡ true
  pub least : Least less condition games best

abbrev pub NoneFits : (FarmInfo → Bool) → List FarmInfo → Type 0
NoneFits condition games = All (λ game. fits condition game ≡ false) games

-- What selecting comes to, when a candidate is there already.
record From (condition : FarmInfo → Bool) (games : List FarmInfo) (candidate best : FarmInfo)
    : Type 0 where
  place : (best ≡ candidate) ⊎ Memᴰ best games
  fitting : fits condition best ≡ true
  no_better : is_less candidate best ≡ false
  least : Least is_less condition games best

select_from_taken :
    (condition : FarmInfo → Bool) (games : List FarmInfo) (candidate game : FarmInfo)
    → fits condition game ≡ true
    → is_less game candidate ≡ true
    → select_from condition (some candidate) (game ∷ games)
      ≡ select_from condition (some game) games
unfolding select_from is_better
select_from_taken condition games candidate game f l =
    let both : (ltb 0 game.cards_remaining && condition game && is_less game candidate) ≡ true =
      ground arith in
    rw both refl

select_from_left :
    (condition : FarmInfo → Bool) (games : List FarmInfo) (candidate game : FarmInfo)
    → (fits condition game && is_less game candidate) ≡ false
    → select_from condition (some candidate) (game ∷ games)
      ≡ select_from condition (some candidate) games
unfolding select_from is_better
select_from_left condition games candidate game h =
    let both : (ltb 0 game.cards_remaining && condition game && is_less game candidate) ≡ false =
      ground arith in
    rw both refl

select_from-From :
    (condition : FarmInfo → Bool) (games : List FarmInfo) (candidate : FarmInfo)
    → fits condition candidate ≡ true
    → (best : FarmInfo) × (select_from condition (some candidate) games ≡ some best)
      × From condition games candidate best
unfolding select_from
select_from-From condition [] candidate h = (
  candidate,
  refl,
  record { place = inl refl; fitting = h; no_better = is_less_irreflexive candidate; least = tt },
)
select_from-From condition (game ∷ games) candidate h =
    elim (Bool-cases (fits condition game && is_less game candidate)) [
      | inl e ↦
          let fit : fits condition game ≡ true = ground arith in
          let less : is_less game candidate ≡ true = ground arith in
          let (best, s, f) = select_from-From condition games game fit in
          let first : (fits condition game && is_less game best) ≡ false =
            rw f.no_better (ground arith) in
          (
            best,
            select_from_taken condition games candidate game fit less ∙ s,
            record {
              place = elim f.place [ inl g ↦ inr (Memᴰ.head g) | inr m ↦ inr (Memᴰ.tail m) ];
              fitting = f.fitting;
              no_better =
                  is_less_transitive candidate game best (is_less_asymmetric game candidate less)
                    f.no_better;
              least = (first, f.least);
            },
          )
      | inr e ↦
          let (best, s, f) = select_from-From condition games candidate h in
          (
            best,
            select_from_left condition games candidate game e ∙ s,
            record {
              place = elim f.place [ inl g ↦ inl g | inr m ↦ inr (Memᴰ.tail m) ];
              fitting = f.fitting;
              no_better = f.no_better;
              least = (
                elim (Bool-cases (is_less game candidate)) [
                  | inl l ↦ let fit : fits condition game ≡ false = ground arith in rw fit refl
                  | inr l ↦
                      rw (is_less_transitive game candidate best l f.no_better)
                        (elim (Bool-cases (fits condition game)) [
                          | inl b ↦ rw b refl
                          | inr b ↦ rw b refl
                        ])
                ],
                f.least,
              );
            },
          )
    ]

-- A single game is selected if some game with cards left meets the condition, and it is the best
-- of them.
pub select_single_game-Best :
    (condition : FarmInfo → Bool) (games : List FarmInfo)
    → ((select_single_game condition games ≡ none) × NoneFits condition games)
      ⊎ ((best : FarmInfo) × (select_single_game condition games ≡ some best)
          × Best is_less condition games best)
unfolding select_single_game select_from is_better
select_single_game-Best condition [] = inl (refl, tt)
select_single_game-Best condition (game ∷ games) = elim (Bool-cases (fits condition game)) [
  | inl e ↦
      let (best, s, f) = select_from-From condition games game e in
      let first : (fits condition game && is_less game best) ≡ false =
        rw f.no_better (ground arith) in
      let taken : (ltb 0 game.cards_remaining && condition game && true) ≡ true = ground arith in
      inr (
        best,
        rw (select_single_game, select_from, taken) s,
        record {
          member = elim f.place [ inl g ↦ Memᴰ.head g | inr m ↦ Memᴰ.tail m ];
          fitting = f.fitting;
          least = (first, f.least);
        },
      )
  | inr e ↦
      let left : (ltb 0 game.cards_remaining && condition game && true) ≡ false = ground arith in
      elim (select_single_game-Best condition games) [
        | inl (s, n) ↦ inl (rw (select_single_game, select_from, left) s, (e, n))
        | inr (best, s, b) ↦ inr (
          best,
          rw (select_single_game, select_from, left) s,
          record { member = Memᴰ.tail b.member; fitting = b.fitting; least = (rw e refl, b.least) },
        )
      ]
]
