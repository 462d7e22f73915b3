-- ===== src/CardFarmer/Playing.antt =====
-- Which games are run in the end: the messages of the card farmer, handled by PlayGames.
use christians_steam_framewo.Base.{
  ℕ, Bool, true, false, not, ◌&&◌, List, [], ◌∷◌, ◌++◌, if◌then◌else◌, ltb, ◌==◌, ==_iff, bytes_eq,
  bytes_eq_iff, contains, contains-Permᴰ, sort, sort-Permᴰ, values, Sorted, sort-Sorted, ◌≡◌, refl,
  sym, ap, ◌∙◌, Bool-cases, inl, inr, arith,
}
use christians_steam_framewo.PlayGames
use christians_steam_framewo.PlayGames.{PlayGames}
use christians_steam_framewo.PlayGames.Held.{holds, handle-holds}
use christians_steam_framewo.CardFarmer.{PlayMessage, CardFarmer}
use christians_steam_framewo.CardFarmer.Select.{select_farm_games}
use christians_steam_framewo.CardFarmer.Run.{games_to_stop, play_games, farm_games}

games_to_stop-contains :
    (my playing : List ℕ) (x : ℕ)
    → contains x (games_to_stop my playing) ≡ (not (contains x my) && contains x playing)
unfolding games_to_stop contains
games_to_stop-contains my [] x = ground arith
games_to_stop-contains my (y ∷ playing) x =
    let step = games_to_stop-contains my playing x in
    elim (Bool-cases (y == x)) [
      | inl f ↦
          let here = ap (λ z. contains z my) ((==_iff y x).0 f) in
          elim (Bool-cases (contains y my)) [
            | inl e ↦ rw (e, f) (ground arith)
            | inr e ↦ rw (e, f) (ground arith)
          ]
      | inr f ↦ elim (Bool-cases (contains y my)) [
        | inl e ↦ rw (e, f) step
        | inr e ↦ rw (e, f) step
      ]
    ]

-- PlayGames holds exactly the games that the card farmer has in `playing`, which is in order.
pub record Agree (s : CardFarmer) (p : PlayGames) : Type 0 where
  pub held : (x : ℕ) → holds x p ≡ contains x s.playing
  pub in_order : Sorted ltb s.playing

-- The messages that a call adds have the games started and stopped that are to be run.
pub play_games-Agree :
    (now : ℕ) (my : List ℕ) (s : CardFarmer) (p : PlayGames)
    → Agree s p
    → (messages : List PlayMessage) × ((play_games my s).sent ≡ s.sent ++ messages)
      × Agree (play_games my s) (PlayGames.handle_all now messages p)
      × ((x : ℕ) → holds x (PlayGames.handle_all now messages p) ≡ contains x my)
unfolding play_games PlayGames.handle_all
play_games-Agree now my s p agree =
    let stop = games_to_stop my s.playing in
    let sorted = sort ltb my in
    let stopped : (x : ℕ)
        → holds x (PlayGames.handle now false stop p) ≡ (contains x my && contains x s.playing) =
      λ x.
        let h = handle-holds now false stop p x in
        let t = games_to_stop-contains my s.playing x in let a = agree.held x in ground arith in
    let all : (x : ℕ) → contains x sorted ≡ contains x my =
      λ x. contains-Permᴰ x (sort-Permᴰ ltb my) in
    elim (Bool-cases (bytes_eq sorted s.playing)) [
      | inl e ↦
          let same = (bytes_eq_iff sorted s.playing).0 e in
          let now_held : (x : ℕ) → holds x (PlayGames.handle now false stop p) ≡ contains x my =
            λ x.
              let h = stopped x in
              let a = all x in let b = ap (λ l. contains x l) same in ground arith in
          rw (play_games, e)
            (
              (false, stop) ∷ [],
              refl,
              record {
                held = λ x. now_held x ∙ sym (all x) ∙ ap (λ l. contains x l) same;
                in_order = agree.in_order;
              },
              now_held,
            )
      | inr e ↦
          let now_held : (x : ℕ)
              → holds x (PlayGames.handle now true sorted (PlayGames.handle now false stop p))
                ≡ contains x my =
            λ x.
              let h = handle-holds now true sorted (PlayGames.handle now false stop p) x in
              let a = all x in let b = stopped x in ground arith in
          rw (play_games, e)
            (
              (false, stop) ∷ (true, sorted) ∷ [],
              refl,
              record {
                held = λ x. now_held x ∙ sym (all x);
                in_order = sort-Sorted ltb (λ a b h. ground arith) (λ a b c h k. ground arith) my;
              },
              now_held,
            )
    ]

contains-if :
    (b : Bool) (x : ℕ) (xs : List ℕ) → contains x (if b then xs else []) ≡ (b && contains x xs)
unfolding contains
contains-if true x xs = refl
contains-if false x xs = refl

-- If PlayGames holds what the card farmer takes as being played, then after `farmGames` and once
-- its messages are handled, PlayGames holds exactly the games selected, or none if farming is not
-- enabled, and the card farmer takes just those as being played.
pub farm_games-holds :
    (now : ℕ) (enabled : Bool) (s : CardFarmer) (p : PlayGames)
    → Agree s p
    → (messages : List PlayMessage) × ((farm_games enabled s).sent ≡ s.sent ++ messages)
      × Agree (farm_games enabled s) (PlayGames.handle_all now messages p)
      × ((x : ℕ)
          → holds x (PlayGames.handle_all now messages p)
            ≡ (enabled && contains x (select_farm_games (values s.games))))
unfolding farm_games
farm_games-holds now enabled s p agree =
    let my = if enabled then select_farm_games (values s.games) else [] in
    let (messages, e, a, h) = play_games-Agree now my s p agree in
    (messages, e, a, λ x. h x ∙ contains-if enabled x (select_farm_games (values s.games)))
