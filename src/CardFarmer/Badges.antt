-- ===== src/CardFarmer/Badges.antt =====
-- Which games the badges make the module farm, and their playtimes.
use mathlib.Core.Bool.{true≢false}
use mathlib.Core.Option.{none-ne-some}
use christians_steam_framewo.Base.{
  ℕ, ◌-◌, true, [], ◌∷◌, Option, none, some, ok, if◌then◌else◌, ltb, ◌==◌, ==_iff, Map, find_key,
  set_key, find_key-set_key, DistinctKeys, ◌≡◌, ◌⊎◌, refl, sym, ap, subst, ◌∙◌, Bool-cases,
  Option-cases, inl, inr, arith,
}
use christians_steam_framewo.OwnedGames.{GameInfo, get_owned_info}
use christians_steam_framewo.CardFarmer.{FarmInfo, Client, CardFarmer, is_refundable}
use christians_steam_framewo.CardFarmer.Run.{
  BadgeInfo, take_game, emplace, refreshed, add_badge, add_badges, handle_badge_data,
}

-- What is found under an app id, if anything, is the game of this id.
abbrev pub OwnId : ℕ → Option FarmInfo → Type 0
OwnId k none = Unit
OwnId k (some game) = game.app_id ≡ k

abbrev pub Keyed : Map FarmInfo → Type 0
Keyed games = (k : ℕ) → OwnId k (find_key k games)

-- The game that a badge stands for.
abbrev pub farm_info : ℕ → BadgeInfo → GameInfo → FarmInfo
farm_info app_id badge info = record {
  app_id = app_id;
  cards_remaining = badge.cards_earned - badge.cards_received;
  cards_received = badge.cards_received;
  playtime = info.playtime_forever;
}

module _ (now : ℕ) (client : Client) where
  abbrev unless_refundable : FarmInfo → Option FarmInfo
  unless_refundable game = if is_refundable now client game then none else some game

  abbrev if_owned : ℕ → BadgeInfo → Option GameInfo → Option FarmInfo
  if_owned app_id badge none = none
  if_owned app_id badge (some info) = unless_refundable (farm_info app_id badge info)

  -- The game to farm for an app and its badge: there is one if cards are left, the game is owned and
  -- it is not refundable.
  abbrev pub wanted : ℕ → Option BadgeInfo → Option FarmInfo
  wanted app_id none = none
  wanted app_id (some badge) =
      if ltb badge.cards_received badge.cards_earned
      then if_owned app_id badge (get_owned_info app_id client.owned_games)
      else none

refreshed-farm_info :
    (k : ℕ) (badge : BadgeInfo) (info : GameInfo) (games : Map FarmInfo)
    → Keyed games
    → refreshed k badge info games ≡ farm_info k badge info
unfolding refreshed take_game
refreshed-farm_info k badge info games keyed = elim (Option-cases (find_key k games)) [
  | inl e ↦ rw (refreshed, take_game, e) refl
  | inr (game, e) ↦
      let own = subst (OwnId k) e (keyed k) in rw (refreshed, take_game, e) (rw own refl)
]

take_game-app_id : (k : ℕ) (games : Map FarmInfo) → Keyed games → (take_game k games).app_id ≡ k
unfolding take_game
take_game-app_id k games keyed = elim (Option-cases (find_key k games)) [
  | inl e ↦ rw (take_game, e) refl
  | inr (game, e) ↦ rw (take_game, e) (subst (OwnId k) e (keyed k))
]

-- A badge adds the game wanted for it, if there is one.
add_badge-cases :
    (now : ℕ) (client : Client) (games my : Map FarmInfo) (k : ℕ) (badge : BadgeInfo)
    → Keyed games
    → find_key k my ≡ none
    → ((add_badge now client games k badge my ≡ ok my) × (wanted now client k (some badge) ≡ none))
      ⊎ ((game : FarmInfo) × (add_badge now client games k badge my ≡ ok (set_key k game my))
          × (wanted now client k (some badge) ≡ some game)
          × (game.app_id ≡ k))
unfolding add_badge emplace
add_badge-cases now client games my k badge keyed missing =
    let own = take_game-app_id k games keyed in
    elim (Bool-cases (ltb badge.cards_received badge.cards_earned)) [
      | inr e ↦ inl (rw (add_badge, e) refl, rw e refl)
      | inl e ↦
          let left : ltb 0 (badge.cards_earned - badge.cards_received) ≡ true = ground arith in
          elim (Option-cases (get_owned_info k client.owned_games)) [
            | inl f ↦
                let found = ap (λ j. get_owned_info j client.owned_games) own ∙ f in
                inl (rw (add_badge, e, left, found) refl, rw (e, f) refl)
            | inr (info, f) ↦
                let found = ap (λ j. get_owned_info j client.owned_games) own ∙ f in
                let same = refreshed-farm_info k badge info games keyed in
                elim (Bool-cases (is_refundable now client (farm_info k badge info))) [
                  | inl r ↦
                      let refundable = ap (is_refundable now client) same ∙ r in
                      inl (rw (add_badge, e, left, found, refundable) refl, rw (e, f, r) refl)
                  | inr r ↦
                      let refundable = ap (is_refundable now client) same ∙ r in
                      inr (
                        farm_info k badge info,
                        rw (add_badge, e, left, found, refundable, emplace, missing)
                            (ap (λ g. ok (set_key k g my)) same),
                        rw (e, f, r) refl,
                        refl,
                      )
                ]
          ]
    ]

-- What is found once some badges are added to what was there.
abbrev with_badge : ℕ → Client → ℕ → Option BadgeInfo → Option FarmInfo → Option FarmInfo
with_badge now client id none there = there
with_badge now client id (some badge) there = wanted now client id (some badge)

-- No app has both a badge to come and a game already.
abbrev Apart : Map BadgeInfo → Map FarmInfo → ℕ → Type 0
Apart badges my k = (find_key k badges ≡ none) ⊎ (find_key k my ≡ none)

Apart-next :
    (k j : ℕ) (badge : BadgeInfo) (badges : Map BadgeInfo) (my my' : Map FarmInfo)
    → find_key k badges ≡ none
    → (find_key j my' ≡ find_key j my) ⊎ ((k == j) ≡ true)
    → Apart ((k, badge) ∷ badges) my j
    → Apart badges my' j
unfolding find_key
Apart-next k j badge badges my my' fresh change apart = elim (Bool-cases (k == j)) [
  | inl e ↦ inl (subst (λ i. find_key i badges ≡ none) ((==_iff k j).0 e) fresh)
  | inr e ↦ elim apart [
    | inl h ↦ inl (rw (find_key, e) at h)
    | inr h ↦ elim change [ inl same ↦ inr (same ∙ h) | inr f ↦ absurd (true≢false (sym f ∙ e)) ]
  ]
]

-- What is found of an app before and after the badge that is its own or another's.
with_badge-next :
    (now : ℕ) (client : Client) (k id : ℕ) (badge : BadgeInfo) (badges : Map BadgeInfo)
    (there there' : Option FarmInfo)
    → find_key k badges ≡ none
    → there' ≡ (if k == id then wanted now client k (some badge) else there)
    → with_badge now client id (find_key id badges) there'
      ≡ with_badge now client id (find_key id ((k, badge) ∷ badges)) there
unfolding find_key
with_badge-next now client k id badge badges there there' fresh e = elim (Bool-cases (k == id)) [
  | inl f ↦
      let k≡id = (==_iff k id).0 f in
      let none_left = subst (λ i. find_key i badges ≡ none) k≡id fresh in
      let mine = subst (λ i. there' ≡ wanted now client i (some badge)) k≡id (rw f at e) in
      rw (find_key, f, none_left) mine
  | inr f ↦ let same = rw f at e in rw (find_key, f, same) refl
]

add_badges-wanted :
    (now : ℕ) (client : Client) (games : Map FarmInfo) (badges : Map BadgeInfo) (my : Map FarmInfo)
    → Keyed games
    → Keyed my
    → DistinctKeys badges
    → ((k : ℕ) → Apart badges my k)
    → (my' : Map FarmInfo) × (add_badges now client games badges my ≡ ok my')
      × Keyed my'
      × ((id : ℕ)
          → find_key id my' ≡ with_badge now client id (find_key id badges) (find_key id my))
unfolding add_badges find_key
add_badges-wanted now client games [] my keyed own distinct apart = (my, refl, own, λ id. refl)
add_badges-wanted now client games ((k, badge) ∷ badges) my keyed own (fresh, distinct) apart =
    let same : (k == k) ≡ true = ground arith in
    let missing : find_key k my ≡ none = elim (apart k) [
      | inl h ↦ absurd (none-ne-some _ (sym (rw (find_key, same) at h)))
      | inr h ↦ h
    ] in
    elim (add_badge-cases now client games my k badge keyed missing) [
      | inl (e, w) ↦
          let (my', f, own', found) =
            add_badges-wanted now client games badges my keyed own distinct
              (λ j. Apart-next k j badge badges my my fresh (inl refl) (apart j)) in
          rw (add_badges, e)
            (
              my',
              f,
              own',
              λ id.
                  found id
                  ∙ with_badge-next now client k id badge badges _ _ fresh
                      (elim (Bool-cases (k == id)) [
                        | inl g ↦
                            rw (g, w)
                              (subst (λ i. find_key i my ≡ none) ((==_iff k id).0 g) missing)
                        | inr g ↦ rw g refl
                      ]),
            )
      | inr (game, e, w, is_k) ↦
          let own₁ : Keyed (set_key k game my) = λ j.
            rw find_key-set_key (elim (Bool-cases (k == j)) [
              | inl g ↦ rw g (is_k ∙ (==_iff k j).0 g)
              | inr g ↦ rw g (own j)
            ]) in
          let change : (j : ℕ)
              → (find_key j (set_key k game my) ≡ find_key j my) ⊎ ((k == j) ≡ true) =
            λ j. elim (Bool-cases (k == j)) [
              | inl g ↦ inr g
              | inr g ↦ inl (find_key-set_key j k game my ∙ rw g refl)
            ] in
          let (my', f, own', found) =
            add_badges-wanted now client games badges (set_key k game my) keyed own₁ distinct (λ j.
              Apart-next k j badge badges my (set_key k game my) fresh (change j) (apart j)) in
          rw (add_badges, e)
            (
              my',
              f,
              own',
              λ id.
                  found id
                  ∙ with_badge-next now client k id badge badges _ _ fresh
                      (find_key-set_key id k game my ∙ rw w refl),
            )
    ]

with_badge-nothing :
    (now : ℕ) (client : Client) (id : ℕ) (badge : Option BadgeInfo)
    → with_badge now client id badge none ≡ wanted now client id badge
with_badge-nothing now client id none = refl
with_badge-nothing now client id (some badge) = refl

-- From games that stand under their own app ids, and badges of distinct apps: no assertion fails,
-- and the games farmed afterwards are those wanted, for each app one or none as its badge says.
pub handle_badge_data-wanted :
    (now steady_now : ℕ) (client : Client) (badges : Map BadgeInfo) (s : CardFarmer)
    → Keyed s.games
    → DistinctKeys badges
    → (s' : CardFarmer) × (handle_badge_data now steady_now client (some badges) s ≡ ok s')
      × Keyed s'.games
      × ((id : ℕ) → find_key id s'.games ≡ wanted now client id (find_key id badges))
unfolding handle_badge_data find_key
handle_badge_data-wanted now steady_now client badges s keyed distinct =
    let (my', e, own, found) =
      add_badges-wanted now client s.games badges [] keyed (λ k. tt) distinct (λ k. inr refl) in
    rw (handle_badge_data, e)
      (_, refl, own, λ id. found id ∙ with_badge-nothing now client id (find_key id badges))
