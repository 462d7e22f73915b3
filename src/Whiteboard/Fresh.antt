-- ===== src/Whiteboard/Fresh.antt =====
-- No change is lost: what a waiter has not been told of, it has seen.
use christians_steam_framewo.Base.{
  ℕ, Bool, true, false, ◌&&◌, ◌||◌, List, [], ◌∷◌, ◌++◌, Option, none, some, if◌then◌else◌, ◌==◌,
  ==_iff, Map, find_key, find_key-set_key, contains, ◌≡◌, ◌⊎◌, refl, sym, ap, subst, ◌∙◌,
  Bool-cases, Option-cases, inl, inr, arith,
}
use christians_steam_framewo.Whiteboard.{
  Flags, Whiteboard, set_changed, reset_changed, set, clear, has, add_waiter, install, waiter_has,
}
use christians_steam_framewo.Whiteboard.Notify.{
  is_registered, Notified, set-Notified, clear-Notified, tell-changed,
}

-- What happens to a whiteboard: an item is set or cleared, a waiter is installed, or asks for its
-- item. A waiter's type is fixed, by `kind`.
pub data Event {ℓ} (A : Type ℓ) : Type ℓ where
  sets : ℕ → A → Event A
  clears : ℕ → Event A
  installs : ℕ → Event A
  asks : ℕ → Event A

-- The whiteboard, and what each waiter was given last; a new waiter was given nothing.
pub record Watched {ℓ} (A : Type ℓ) : Type ℓ where
  pub board : Whiteboard A
  pub seen : ℕ → Option A

abbrev pub no_flags : Flags
no_flags = record { changed = λ w. false; wakeups = λ w. 0 }

abbrev pub nothing_yet {ℓ} : {A : Type ℓ} → Watched A
nothing_yet = record {
  board = record { items = []; waiters = []; flags = no_flags };
  seen = λ w. none;
}

contains-snoc : (x y : ℕ) (ys : List ℕ) → contains x (ys ++ y ∷ []) ≡ (contains x ys || (y == x))
unfolding contains
contains-snoc x y [] = ground arith
contains-snoc x y (z ∷ ys) = let step = contains-snoc x y ys in ground arith

add_waiter-registered :
    (key v : ℕ) (waiters : Map (List ℕ)) (k w : ℕ)
    → is_registered k w (add_waiter key v waiters)
      ≡ (is_registered k w waiters || ((key == k) && (v == w)))
unfolding add_waiter contains
add_waiter-registered key v waiters k w = elim (Option-cases (find_key key waiters)) [
  | inl e ↦
      rw (add_waiter, e, find_key-set_key)
        (elim (Bool-cases (key == k)) [
          | inl f ↦
              let missing = subst (λ j. find_key j waiters ≡ none) ((==_iff key k).0 f) e in
              rw (f, missing) (ground arith)
          | inr f ↦ rw f (ground arith)
        ])
  | inr (ws, e) ↦
      rw (add_waiter, e, find_key-set_key)
        (elim (Bool-cases (key == k)) [
          | inl f ↦
              let there = subst (λ j. find_key j waiters ≡ some ws) ((==_iff key k).0 f) e in
              rw (f, there) (contains-snoc w v ws)
          | inr f ↦ rw f (ground arith)
        ])
]

set_changed-changed :
    (v : ℕ) (f : Flags) (w : ℕ) → (set_changed v f).changed w ≡ (f.changed w || (v == w))
set_changed-changed v f w = (tell-changed (λ u. true) v f w).0

module _ {ℓ} {A : Type ℓ} (locks : ℕ → Bool) (kind : ℕ → ℕ) where
  unfoldable pub step : Event A → Watched A → Watched A
  unfolding set clear install waiter_has
  step (sets key value) s = record s { board = set locks key value s.board }
  step (clears key) s = record s { board = clear locks key s.board }
  step (installs w) s = record {
    board = install (kind w) w s.board;
    seen = λ v. if w == v then none else s.seen v;
  }
  step (asks w) s =
      let (given, board) = waiter_has (kind w) w s.board in
      record { board = board; seen = λ v. if w == v then given else s.seen v }

  unfoldable pub run : List (Event A) → Watched A → Watched A
  unfolding step
  run [] s = s
  run (event ∷ events) s = run events (step event s)

  -- A waiter that is registered is flagged, or was given last what is on the whiteboard.
  abbrev pub Fresh : ℕ → Watched A → Type ℓ
  Fresh w s =
      (is_registered (kind w) w s.board.waiters ≡ false)
      ⊎ ((s.board.flags.changed w ≡ true) ⊎ (s.seen w ≡ has (kind w) s.board))

  -- After a change of an item, whatever it is.
  Notified-Fresh :
      (key : ℕ) (s : Watched A) (board : Whiteboard A) (value : Option A)
      → ((k : ℕ) → has k board ≡ (if key == k then value else has k s.board))
      → Notified locks key s.board.waiters s.board.flags board.waiters board.flags
      → (w : ℕ) → Fresh w s
      → Fresh w (record s { board = board })
  Notified-Fresh key s board value items n w fresh =
      let c = n.flagged w in
      let r = n.registered (kind w) w in
      let i = items (kind w) in
      elim (Bool-cases (key == kind w)) [
        | inl f ↦
            let same = ap (λ k. is_registered k w s.board.waiters) ((==_iff key (kind w)).0 f) in
            elim (Bool-cases (locks w && is_registered (kind w) w s.board.waiters)) [
              | inl g ↦ inr (inl (ground arith))
              | inr g ↦ inl (rw (f, g) at r)
            ]
        | inr f ↦ elim fresh [
          | inl h ↦ inl (rw (f, h) at r)
          | inr (inl h) ↦ inr (inl (rw h at c))
          | inr (inr h) ↦ inr (inr (h ∙ sym (rw f at i)))
        ]
      ]

  install-Fresh :
      (v : ℕ) (s : Watched A) (w : ℕ)
      → Fresh w s
      → Fresh w (record {
        board = install (kind v) v s.board;
        seen = λ u. if v == u then none else s.seen u;
      })
  unfolding install has
  install-Fresh v s w fresh =
      let r = add_waiter-registered (kind v) v s.board.waiters (kind w) w in
      elim (Option-cases (find_key (kind v) s.board.items)) [
        | inl e ↦
            rw (install, has, e)
              (elim (Bool-cases (v == w)) [
                | inl f ↦
                    let missing =
                      subst (λ u. find_key (kind u) s.board.items ≡ none) ((==_iff v w).0 f) e in
                    inr (inr (rw (f, has, missing) refl))
                | inr f ↦ elim fresh [
                  | inl h ↦ inl (r ∙ rw (h, f) (ground arith))
                  | inr (inl h) ↦ inr (inl h)
                  | inr (inr h) ↦ inr (inr (rw f h))
                ]
              ])
        | inr (a, e) ↦
            let c = set_changed-changed v s.board.flags w in
            rw (install, has, e)
              (elim (Bool-cases (v == w)) [
                | inl f ↦ inr (inl (c ∙ rw f (ground arith)))
                | inr f ↦ elim fresh [
                  | inl h ↦ inl (r ∙ rw (h, f) (ground arith))
                  | inr (inl h) ↦ inr (inl (c ∙ rw h refl))
                  | inr (inr h) ↦ inr (inr (rw f h))
                ]
              ])
      ]

  asks-Fresh :
      (v : ℕ) (s : Watched A) (w : ℕ)
      → Fresh w s
      → Fresh w (record {
        board = (waiter_has (kind v) v s.board).1;
        seen = λ u. if v == u then has (kind v) s.board else s.seen u;
      })
  unfolding waiter_has reset_changed has
  asks-Fresh v s w fresh = elim (Bool-cases (v == w)) [
    | inl f ↦ inr (inr (rw f (ap (λ u. find_key (kind u) s.board.items) ((==_iff v w).0 f))))
    | inr f ↦ elim fresh [
      | inl h ↦ inl h
      | inr (inl h) ↦ inr (inl (rw f h))
      | inr (inr h) ↦ inr (inr (rw f h))
    ]
  ]

  step-Fresh : (event : Event A) (s : Watched A) (w : ℕ) → Fresh w s → Fresh w (step event s)
  unfolding step waiter_has
  step-Fresh (sets key value) s w fresh =
      let (items, n) = set-Notified locks key value s.board in
      Notified-Fresh key s (set locks key value s.board) (some value) items n w fresh
  step-Fresh (clears key) s w fresh =
      let (items, n) = clear-Notified locks key s.board in
      Notified-Fresh key s (clear locks key s.board) none items n w fresh
  step-Fresh (installs v) s w fresh = install-Fresh v s w fresh
  step-Fresh (asks v) s w fresh = asks-Fresh v s w fresh

  run-steps-Fresh :
      (events : List (Event A)) (s : Watched A) (w : ℕ) → Fresh w s → Fresh w (run events s)
  unfolding run
  run-steps-Fresh [] s w fresh = fresh
  run-steps-Fresh (event ∷ events) s w fresh =
      run-steps-Fresh events (step event s) w (step-Fresh event s w fresh)

  -- After any events from an empty whiteboard, a waiter that is registered is flagged, or else what
  -- it was given last, which is nothing for a new one, is what the whiteboard has of its type.
  pub run-Fresh : (events : List (Event A)) (w : ℕ) → Fresh w (run events nothing_yet)
  unfolding has find_key
  run-Fresh events w = run-steps-Fresh events nothing_yet w (inr (inr refl))
