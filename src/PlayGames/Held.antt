-- ===== src/PlayGames/Held.antt =====
-- Which games a message starts and stops.
use mathlib.Core.Logic.{∥∥₁_map}
use mathlib.Core.List.{Permᴰ}
use christians_steam_framewo.Base.{
  ℕ, Bool, true, false, not, ◌&&◌, ◌||◌, List, [], ◌∷◌, ◌++◌, if◌then◌else◌, ◌==◌, ==_iff, contains,
  occurs-contains, occurs-Perm, leb, ◌≡◌, refl, sym, ap, subst, ◌∙◌, Bool-cases, inl, inr, arith,
}
use christians_steam_framewo.Vector.Erase.{reject}
use christians_steam_framewo.PlayGames
use christians_steam_framewo.PlayGames.{
  Game, PlayGames, make_game, is_listed, app_ids, add_games, start_games, send_games, report_games,
  stop_games, handle, handle_all,
}
use christians_steam_framewo.PlayGames.Games.{asked, stop_games-games}

pub is_listed-contains : (x : ℕ) (xs : List ℕ) → is_listed x xs ≡ contains x xs
unfolding is_listed contains
is_listed-contains x [] = refl
is_listed-contains x (y ∷ ys) = elim (Bool-cases (y == x)) [
  | inl e ↦ rw e refl
  | inr e ↦ rw e (is_listed-contains x ys)
]

-- Whether the module holds a game.
abbrev pub holds : ℕ → PlayGames → Bool
holds app_id s = contains app_id (app_ids s.games)

app_ids-snoc :
    (x : ℕ) (gs : List Game) (g : Game)
    → contains x (app_ids (gs ++ g ∷ [])) ≡ ((g.app_id == x) || contains x (app_ids gs))
unfolding app_ids contains
app_ids-snoc x [] g = ground arith
app_ids-snoc x (h ∷ gs) g = let step = app_ids-snoc x gs g in ground arith

add_games-holds :
    (now : ℕ) (xs : List ℕ) (gs : List Game) (x : ℕ)
    → contains x (app_ids (add_games now xs gs).0) ≡ (contains x xs || contains x (app_ids gs))
unfolding add_games contains
add_games-holds now [] gs x = refl
add_games-holds now (y ∷ ys) gs x = elim (Bool-cases (is_listed y (app_ids gs))) [
  | inl e ↦
      let there = sym (is_listed-contains y (app_ids gs)) ∙ e in
      let step = add_games-holds now ys gs x in
      elim (Bool-cases (y == x)) [
        | inl f ↦
            let here = subst (λ z. contains z (app_ids gs) ≡ true) ((==_iff y x).0 f) there in
            rw (e, f) (step ∙ rw here (ground arith))
        | inr f ↦ rw (e, f) step
      ]
  | inr e ↦
      let step = add_games-holds now ys (gs ++ make_game y now ∷ []) x in
      let snoc = app_ids-snoc x gs (make_game y now) in rw e (step ∙ rw snoc (ground arith))
]

start_games-holds :
    (now : ℕ) (xs : List ℕ) (s : PlayGames) (x : ℕ)
    → holds x (start_games now xs s) ≡ (contains x xs || holds x s)
unfolding start_games send_games report_games
start_games-holds now xs s x = elim (Bool-cases (add_games now xs s.games).1) [
  | inl e ↦ rw (start_games, e) (add_games-holds now xs s.games x)
  | inr e ↦ rw (start_games, e) (add_games-holds now xs s.games x)
]

app_ids-Permᴰ : {gs hs : List Game} → Permᴰ gs hs → Permᴰ (app_ids gs) (app_ids hs)
unfolding app_ids
app_ids-Permᴰ Permᴰ.nil = Permᴰ.nil
app_ids-Permᴰ (Permᴰ.cons e p) = Permᴰ.cons (ap (λ g. g.app_id) e) (app_ids-Permᴰ p)
app_ids-Permᴰ (Permᴰ.swap e f) = Permᴰ.swap (ap (λ g. g.app_id) e) (ap (λ g. g.app_id) f)
app_ids-Permᴰ (Permᴰ.trans p q) = Permᴰ.trans (app_ids-Permᴰ p) (app_ids-Permᴰ q)

contains-reject :
    (xs : List ℕ) (gs : List Game) (x : ℕ)
    → contains x (app_ids (reject (asked xs) gs)) ≡ (not (contains x xs) && contains x (app_ids gs))
unfolding reject app_ids contains
contains-reject xs [] x = ground arith
contains-reject xs (g ∷ gs) x =
    let step = contains-reject xs gs x in
    let same = is_listed-contains g.app_id xs in
    elim (Bool-cases (g.app_id == x)) [
      | inl f ↦
          let here = ap (λ z. contains z xs) ((==_iff g.app_id x).0 f) in
          elim (Bool-cases (is_listed g.app_id xs)) [
            | inl e ↦ rw (e, f) (ground arith)
            | inr e ↦ rw (e, f) (ground arith)
          ]
      | inr f ↦ elim (Bool-cases (is_listed g.app_id xs)) [
        | inl e ↦ rw (e, f) step
        | inr e ↦ rw (e, f) step
      ]
    ]

stop_games-holds :
    (xs : List ℕ) (s : PlayGames) (x : ℕ)
    → holds x (stop_games xs s) ≡ (not (contains x xs) && holds x s)
stop_games-holds xs s x =
    let same = ∥∥₁_map (stop_games-games xs s) app_ids-Permᴰ in
    sym (occurs-contains x (app_ids (stop_games xs s).games))
    ∙ ap (leb 1) (occurs-Perm x same)
    ∙ occurs-contains x (app_ids (reject (asked xs) s.games))
    ∙ contains-reject xs s.games x

-- After a message to start games, the module holds those that it held and those of the message;
-- after one to stop games, those that it held and that are not in the message.
pub handle-holds :
    (now : ℕ) (start : Bool) (xs : List ℕ) (s : PlayGames) (x : ℕ)
    → holds x (PlayGames.handle now start xs s)
      ≡ (if start then contains x xs || holds x s else not (contains x xs) && holds x s)
unfolding handle
handle-holds now true xs s x = start_games-holds now xs s x
handle-holds now false xs s x = stop_games-holds xs s x
