-- ===== src/CardFarmer/Playtime.antt =====
-- The playtimes of the games that are farmed, when OwnedGames reports changes.
use mathlib.Core.Bool.{true≢false}
use mathlib.Core.Option.{none-ne-some, some_inj}
use christians_steam_framewo.Base.{
  ℕ, Bool, false, not, ◌&&◌, List, [], ◌∷◌, Option, none, some, ◌==◌, ==_iff, Map, find_key,
  find_key-set_key, ◌≡◌, ◌⊎◌, refl, sym, ap, subst, ◌∙◌, Bool-cases, Option-cases, inl, inr, arith,
}
use christians_steam_framewo.OwnedGames.{
  GameInfo, GameData, GameChanged, get_owned_info, handle_update,
}
use christians_steam_framewo.OwnedGames.Changes.{tells, handle_update-Told, handle_update-keeps}
use christians_steam_framewo.CardFarmer.{FarmInfo, Client, CardFarmer, find_game}
use christians_steam_framewo.CardFarmer.Run.{handle, handle_all}
use christians_steam_framewo.CardFarmer.Badges.{OwnId, Keyed}

-- The change is one of this app, which is not new.
abbrev concerns : ℕ → GameChanged → Bool
concerns a message = message.app_id == a && not message.new_game

-- A game with its new playtime, or with its old one if nothing was said of it.
abbrev Heard : Bool → FarmInfo → GameInfo → FarmInfo → Type 0
Heard said old info game =
    (game.playtime ≡ info.playtime_forever) ⊎ ((game.playtime ≡ old.playtime) × (said ≡ false))

handle-Heard :
    (client : Client) (message : GameChanged) (s : CardFarmer) (a : ℕ) (old : FarmInfo)
    (info : GameInfo)
    → Keyed s.games
    → find_key a s.games ≡ some old
    → get_owned_info a client.owned_games ≡ some info
    → (game : FarmInfo) × (find_key a (handle client message s).games ≡ some game)
      × Heard (concerns a message) old info game
unfolding handle find_game
handle-Heard client message s a old info keyed e owned = elim (Bool-cases message.new_game) [
  | inl n ↦ rw (handle, n) (old, e, inr (refl, ground arith))
  | inr n ↦ elim (Bool-cases (message.app_id == a)) [
    | inl f ↦
        let same = (==_iff message.app_id a).0 f in
        let there = ap (λ k. find_key k s.games) same ∙ e in
        let id : old.app_id ≡ a = subst (OwnId a) e (keyed a) in
        let known = ap (λ k. get_owned_info k client.owned_games) id ∙ owned in
        let now : FarmInfo = record old { playtime = info.playtime_forever } in
        rw (handle, n, find_game, there, known) (now, rw (find_key-set_key, f) refl, inl refl)
    | inr f ↦ elim (Option-cases (find_key message.app_id s.games)) [
      | inl g ↦ rw (handle, n, find_game, g) (old, e, inr (refl, rw f refl))
      | inr (game, g) ↦ elim (Option-cases (get_owned_info game.app_id client.owned_games)) [
        | inl h ↦ rw (handle, n, find_game, g, h) (old, e, inr (refl, rw f refl))
        | inr (other, h) ↦
            rw (handle, n, find_game, g, h) (old, rw (find_key-set_key, f) e, inr (refl, rw f refl))
      ]
    ]
  ]
]

handle-Keyed :
    (client : Client) (message : GameChanged) (s : CardFarmer)
    → Keyed s.games
    → Keyed (handle client message s).games
unfolding handle find_game
handle-Keyed client message s keyed = elim (Bool-cases message.new_game) [
  | inl n ↦ rw (handle, n) keyed
  | inr n ↦ elim (Option-cases (find_key message.app_id s.games)) [
    | inl g ↦ rw (handle, n, find_game, g) keyed
    | inr (game, g) ↦ elim (Option-cases (get_owned_info game.app_id client.owned_games)) [
      | inl h ↦ rw (handle, n, find_game, g, h) keyed
      | inr (info, h) ↦
          let id : game.app_id ≡ message.app_id =
            subst (OwnId message.app_id) g (keyed message.app_id) in
          rw (handle, n, find_game, g, h)
            (λ k. rw find_key-set_key (elim (Bool-cases (message.app_id == k)) [
              | inl f ↦ rw f (id ∙ (==_iff message.app_id k).0 f)
              | inr f ↦ rw f (keyed k)
            ]))
    ]
  ]
]

handle_missing :
    (client : Client) (message : GameChanged) (s : CardFarmer) (a : ℕ)
    → find_key a s.games ≡ none
    → find_key a (handle client message s).games ≡ none
unfolding handle find_game
handle_missing client message s a e = elim (Bool-cases message.new_game) [
  | inl n ↦ rw (handle, n) e
  | inr n ↦ elim (Option-cases (find_key message.app_id s.games)) [
    | inl g ↦ rw (handle, n, find_game, g) e
    | inr (game, g) ↦ elim (Option-cases (get_owned_info game.app_id client.owned_games)) [
      | inl h ↦ rw (handle, n, find_game, g, h) e
      | inr (info, h) ↦
          rw (handle, n, find_game, g, h, find_key-set_key)
            (elim (Bool-cases (message.app_id == a)) [
              | inl f ↦
                  let there =
                    ap (λ k. find_key k s.games) (sym ((==_iff message.app_id a).0 f)) ∙ g in
                  absurd (none-ne-some _ (sym e ∙ there))
              | inr f ↦ rw f e
            ])
    ]
  ]
]

handle_all-Heard :
    (client : Client) (messages : List GameChanged) (s : CardFarmer) (a : ℕ) (old : FarmInfo)
    (info : GameInfo)
    → Keyed s.games
    → find_key a s.games ≡ some old
    → get_owned_info a client.owned_games ≡ some info
    → (game : FarmInfo) × (find_key a (handle_all client messages s).games ≡ some game)
      × Heard (tells false a messages) old info game
unfolding handle_all tells
handle_all-Heard client [] s a old info keyed e owned = (old, e, inr (refl, refl))
handle_all-Heard client (m ∷ ms) s a old info keyed e owned =
    let (next, f, heard) = handle-Heard client m s a old info keyed e owned in
    let (game, g, heard') =
      handle_all-Heard client ms (handle client m s) a next info (handle-Keyed client m s keyed) f
        owned in
    (
      game,
      g,
      elim heard' [
        | inl h ↦ inl h
        | inr (h, silent) ↦ elim heard [
          | inl k ↦ inl (h ∙ k)
          | inr (k, quiet) ↦ inr (h ∙ k, rw (quiet, silent) refl)
        ]
      ],
    )

handle_all_missing :
    (client : Client) (messages : List GameChanged) (s : CardFarmer) (a : ℕ)
    → find_key a s.games ≡ none
    → find_key a (handle_all client messages s).games ≡ none
unfolding handle_all
handle_all_missing client [] s a e = e
handle_all_missing client (m ∷ ms) s a e =
    handle_all_missing client ms (handle client m s) a (handle_missing client m s a e)

-- The game of an app, if it is farmed, has the playtime that OwnedGames has for it.
unfoldable pub InTime : Option (Map GameInfo) → ℕ → Option FarmInfo → Type 0
unfolding get_owned_info
InTime owned a none = Unit
InTime owned a (some game) =
    (info : GameInfo) × (get_owned_info a owned ≡ some info)
    × (game.playtime ≡ info.playtime_forever)

-- If the games farmed have the playtimes that OwnedGames has, they have its new ones once OwnedGames
-- has updated some games and the module has handled the changes that it reports.
pub handle_all-InTime :
    (client : Client) (app_ids : List ℕ) (response : List GameData) (s : CardFarmer)
    → Keyed s.games
    → ((a : ℕ) → InTime client.owned_games a (find_key a s.games))
    → (a : ℕ)
    → InTime (handle_update app_ids response client.owned_games).0 a (
        find_key a
          (handle_all
            (record client { owned_games = (handle_update app_ids response client.owned_games).0 })
            (handle_update app_ids response client.owned_games).1
            s).games)
unfolding InTime
handle_all-InTime client app_ids response s keyed in_time a =
    let owned' = (handle_update app_ids response client.owned_games).0 in
    let changed = (handle_update app_ids response client.owned_games).1 in
    let client' : Client = record client { owned_games = owned' } in
    elim (Option-cases (find_key a s.games)) [
      | inl e ↦ rw (handle_all_missing client' changed s a e) tt
      | inr (old, e) ↦
          let (before, f, same) : InTime client.owned_games a (some old) =
            subst (InTime client.owned_games a) e (in_time a) in
          let (info, g) = handle_update-keeps app_ids response client.owned_games a before f in
          let (game, h, heard) = handle_all-Heard client' changed s a old info keyed e g in
          rw h (
            info,
            g,
            elim heard [
              | inl k ↦ k
              | inr (k, silent) ↦ elim (handle_update-Told app_ids response client.owned_games a) [
                | inl stays ↦
                    k ∙ same ∙ ap (λ i. i.playtime_forever) (some_inj.0 (sym f ∙ sym stays ∙ g))
                | inr told ↦ absurd (true≢false (sym (rw f at told) ∙ silent))
              ]
            ],
          )
    ]
