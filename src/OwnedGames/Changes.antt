-- ===== src/OwnedGames/Changes.antt =====
-- Which changes are reported.
use mathlib.Core.Option.{none-ne-some}
use christians_steam_framewo.Base.{
  ℕ, Bool, true, false, not, ◌&&◌, ◌||◌, List, [], ◌∷◌, ◌++◌, Option, none, some, bytes_eq_iff,
  if◌then◌else◌, ◌==◌, ==_iff, Map, find_key, set_key, find_key-set_key, ◌≡◌, ◌⊎◌, refl, sym, ap,
  subst, ◌∙◌, Bool-cases, Option-cases, inl, inr, arith,
}
use christians_steam_framewo.OwnedGames.{
  GameInfo, GameData, GameChanged, make_info, info_eq, get_info, report, get_games, handle_update,
  get_owned_info,
}

-- Whether a list of changes has one of the app that is not of a new game, and one that is.
unfoldable pub tells : Bool → ℕ → List GameChanged → Bool
tells new app_id [] = false
tells new app_id (c ∷ cs) =
    let rest = tells new app_id cs in
    (c.app_id == app_id && (if new then c.new_game else not c.new_game)) || rest

eq_of_info_eq : (a b : GameInfo) → info_eq a b ≡ true → a ≡ b
unfolding info_eq
eq_of_info_eq a b h =
    let name = (bytes_eq_iff a.name b.name).0 (ground arith) in
    let last : a.last_played ≡ b.last_played = ground arith in
    let time : a.playtime_forever ≡ b.playtime_forever = ground arith in
    λ i. record { name = name i; last_played = last i; playtime_forever = time i }

tells-append :
    (new : Bool) (a : ℕ) (xs ys : List GameChanged)
    → tells new a (xs ++ ys) ≡ (tells new a xs || tells new a ys)
unfolding tells
tells-append new a [] ys = refl
tells-append new a (x ∷ xs) ys = let step = tells-append new a xs ys in ground arith

-- The game is new, if nothing was found.
abbrev pub is_none {ℓ} : {A : Type ℓ} → Option A → Bool
is_none none = true
is_none (some a) = false

-- A game that is found to be different from what stands on the whiteboard is reported.
report-tells :
    (existing : Map GameInfo) (a : ℕ) (info : GameInfo)
    → (find_key a existing ≡ some info)
      ⊎ (tells (is_none (find_key a existing)) a (report (some existing) a info) ≡ true)
unfolding report get_info tells
report-tells existing a info =
    let same : (a == a) ≡ true = ground arith in
    elim (Option-cases (find_key a existing)) [
      | inl e ↦ inr (rw (report, e, tells, e, same) refl)
      | inr (old, e) ↦ elim (Bool-cases (info_eq old info)) [
        | inl f ↦ inl (e ∙ ap some (eq_of_info_eq old info f))
        | inr f ↦ inr (rw (report, e, f, tells, e, same) refl)
      ]
    ]

-- What a change of the games amounts to: the same is found, or a change of the app is reported.
abbrev pub Told : ℕ → Option GameInfo → Option GameInfo → List GameChanged → Type 0
Told a before after changed = (after ≡ before) ⊎ (tells (is_none before) a changed ≡ true)

Told-left :
    (a : ℕ) (before after : Option GameInfo) (xs ys : List GameChanged)
    → tells (is_none before) a xs ≡ true
    → Told a before after (xs ++ ys)
Told-left a before after xs ys h = inr (tells-append (is_none before) a xs ys ∙ rw h refl)

Told-right :
    (a : ℕ) (before after : Option GameInfo) (xs ys : List GameChanged)
    → Told a before after ys
    → Told a before after (xs ++ ys)
Told-right a before after xs ys (inl e) = inl e
Told-right a before after xs ys (inr h) =
    inr (tells-append (is_none before) a xs ys ∙ rw h (ground arith))

-- One game of the response, and then the others.
Told-step :
    (k : ℕ) (info : GameInfo) (games : Map GameInfo) (a : ℕ) (after : Option GameInfo)
    (ys : List GameChanged)
    → Told a (find_key a (set_key k info games)) after ys
    → Told a (find_key a games) after (report (some games) k info ++ ys)
Told-step k info games a after ys h =
    let h' = subst (λ o. Told a o after ys) (find_key-set_key a k info games) h in
    let xs = report (some games) k info in
    elim (Bool-cases (k == a)) [
      | inl f ↦
          let k≡a = (==_iff k a).0 f in
          let told =
            subst
              (λ c.
                (find_key c games ≡ some info) ⊎ (tells (is_none (find_key c games)) c xs ≡ true))
              k≡a (report-tells games k info) in
          elim told [
            | inl e ↦
                Told-right a _ after xs ys (subst (λ o. Told a o after ys) (sym e) (rw f at h'))
            | inr t ↦ Told-left a _ after xs ys t
          ]
      | inr f ↦ Told-right a _ after xs ys (rw f at h')
    ]

get_games-Told :
    (response : List GameData) (games : Map GameInfo) (a : ℕ)
    → Told a
        (find_key a games)
        (find_key a (get_games (λ games. some games) response games).0)
        (get_games (λ games. some games) response games).1
unfolding get_games
get_games-Told [] games a = inl refl
get_games-Told (game ∷ rest) games a = elim (Option-cases game.appid) [
  | inl e ↦ rw (get_games, e) (get_games-Told rest games a)
  | inr (k, e) ↦
      rw (get_games, e)
        (Told-step k (make_info game) games a _ _
          (get_games-Told rest (set_key k (make_info game) games) a))
]

-- After an update of some games, whatever the response holds, what is found of each app is what was
-- found before, or a change of it is reported, as that of a new game if nothing was found before.
pub handle_update-Told :
    (app_ids : List ℕ) (response : List GameData) (owned : Option (Map GameInfo)) (a : ℕ)
    → Told a
        (get_owned_info a owned)
        (get_owned_info a (handle_update app_ids response owned).0)
        (handle_update app_ids response owned).1
unfolding handle_update get_owned_info get_info
handle_update-Told [] response owned a = inl refl
handle_update-Told (x ∷ xs) response none a = inl refl
handle_update-Told (x ∷ xs) response (some games) a = get_games-Told response games a

-- No game is lost in the loop.
get_games-keeps :
    (response : List GameData) (games : Map GameInfo) (a : ℕ) (info : GameInfo)
    → find_key a games ≡ some info
    → (info' : GameInfo) × (find_key a (get_games (λ games. some games) response games).0
        ≡ some info')
unfolding get_games
get_games-keeps [] games a info e = (info, e)
get_games-keeps (game ∷ rest) games a info e = elim (Option-cases game.appid) [
  | inl f ↦ rw (get_games, f) (get_games-keeps rest games a info e)
  | inr (k, f) ↦
      let after = set_key k (make_info game) games in
      let found = find_key-set_key a k (make_info game) games in
      rw (get_games, f)
        (elim (Bool-cases (k == a)) [
          | inl g ↦ get_games-keeps rest after a (make_info game) (rw g at found)
          | inr g ↦ get_games-keeps rest after a info (rw g at found ∙ e)
        ])
]

-- A game that is owned stays so when some games are updated.
pub handle_update-keeps :
    (app_ids : List ℕ) (response : List GameData) (owned : Option (Map GameInfo)) (a : ℕ)
    (info : GameInfo)
    → get_owned_info a owned ≡ some info
    → (info' : GameInfo) × (get_owned_info a (handle_update app_ids response owned).0 ≡ some info')
unfolding handle_update get_owned_info get_info
handle_update-keeps [] response owned a info e = (info, e)
handle_update-keeps (x ∷ xs) response none a info e = absurd (none-ne-some _ e)
handle_update-keeps (x ∷ xs) response (some games) a info e =
    get_games-keeps response games a info e
