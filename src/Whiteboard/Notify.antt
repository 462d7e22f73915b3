-- ===== src/Whiteboard/Notify.antt =====
-- Who is told of a change.
use mathlib.Core.List.{Perm}
use christians_steam_framewo.Base.{
  ℕ, suc, Bool, false, not, ◌&&◌, ◌||◌, List, [], ◌∷◌, Option, none, some, leb, if◌then◌else◌, ◌==◌,
  ==_iff, Map, find_key, find_key-set_key, find_key-erase_key, contains, occurs-contains,
  occurs-Perm, ◌≡◌, refl, sym, ap, subst, ◌∙◌, Bool-cases, Option-cases, inl, inr, arith,
}
use christians_steam_framewo.Vector.Erase.{reject, run, erase-Erases}
use christians_steam_framewo.Whiteboard.{
  Flags, Whiteboard, set_changed, put_back, visit, action, did_change, set, clear, has,
}

contains-Perm : (x : ℕ) {xs ys : List ℕ} → Perm xs ys → contains x xs ≡ contains x ys
contains-Perm x {xs} {ys} p =
    sym (occurs-contains x xs) ∙ ap (leb 1) (occurs-Perm x p) ∙ occurs-contains x ys

-- Whether a waiter is registered for a type.
abbrev pub waiters_of : Option (List ℕ) → List ℕ
waiters_of none = []
waiters_of (some ws) = ws

abbrev pub is_registered : ℕ → ℕ → Map (List ℕ) → Bool
is_registered key w waiters = contains w (waiters_of (find_key key waiters))

module _ (locks : ℕ → Bool) where
  -- What a visit does to the flags.
  abbrev tell : ℕ → Flags → Flags
  tell w f = if locks w then set_changed w f else f

  abbrev released : ℕ → Bool
  released w = not (locks w)

  pub tell-changed :
      (v : ℕ) (f : Flags) (w : ℕ)
      → ((tell v f).changed w ≡ (f.changed w || (locks w && (v == w))))
        × ((tell v f).wakeups w
            ≡ (if locks w && (v == w) && not (f.changed w) then suc (f.wakeups w) else f.wakeups w))
  unfolding set_changed
  tell-changed v f w = elim (Bool-cases (locks v)) [
    | inl e ↦ elim (Bool-cases (f.changed v)) [
      | inl c ↦
          rw (set_changed, e, c)
            (elim (Bool-cases (v == w)) [
              | inl h ↦
                  let same = (==_iff v w).0 h in
                  let c' = ap f.changed (sym same) ∙ c in rw (h, c') (ground arith, ground arith)
              | inr h ↦ rw h (ground arith, ground arith)
            ])
      | inr c ↦
          rw (set_changed, e, c)
            (elim (Bool-cases (v == w)) [
              | inl h ↦
                  let same = (==_iff v w).0 h in
                  let c' = ap f.changed (sym same) ∙ c in
                  let l = ap locks (sym same) ∙ e in rw (h, c', l) (refl, refl)
              | inr h ↦ rw h (ground arith, ground arith)
            ])
    ]
    | inr e ↦ rw e (elim (Bool-cases (v == w)) [
      | inl h ↦ let l = ap locks (sym ((==_iff v w).0 h)) ∙ e in rw (h, l) (ground arith, refl)
      | inr h ↦ rw h (ground arith, ground arith)
    ])
  ]

  run-tell :
      (ws : List ℕ) (f : Flags) (w : ℕ)
      → ((run tell ws f).changed w ≡ (f.changed w || (locks w && contains w ws)))
        × ((run tell ws f).wakeups w ≡ (
            if locks w && contains w ws && not (f.changed w)
            then suc (f.wakeups w)
            else f.wakeups w))
  unfolding run contains
  run-tell [] f w = (ground arith, ground arith)
  run-tell (v ∷ ws) f w =
      let (c, n) = tell-changed v f w in
      let (c', n') = run-tell ws (tell v f) w in (ground arith, ground arith)

  contains-released :
      (ws : List ℕ) (w : ℕ) → contains w (reject released ws) ≡ (locks w && contains w ws)
  unfolding reject contains
  contains-released [] w = ground arith
  contains-released (v ∷ ws) w =
      let step = contains-released ws w in
      elim (Bool-cases (v == w)) [
        | inl h ↦
            let l = ap locks ((==_iff v w).0 h) in
            elim (Bool-cases (locks v)) [
              | inl e ↦ rw (e, h) (ground arith)
              | inr e ↦ rw (e, h) (ground arith)
            ]
        | inr h ↦ elim (Bool-cases (locks v)) [ inl e ↦ rw (e, h) step | inr e ↦ rw (e, h) step ]
      ]

  put_back-registered :
      (key k : ℕ) (ws : List ℕ) (waiters : Map (List ℕ)) (w : ℕ)
      → is_registered k w (put_back key ws waiters)
        ≡ (if key == k then contains w ws else is_registered k w waiters)
  unfolding put_back contains
  put_back-registered key k [] waiters w =
      rw find_key-erase_key (elim (Bool-cases (key == k)) [ inl e ↦ rw e refl | inr e ↦ rw e refl ])
  put_back-registered key k (v ∷ ws) waiters w =
      rw find_key-set_key (elim (Bool-cases (key == k)) [ inl e ↦ rw e refl | inr e ↦ rw e refl ])

  -- What a change of a type's item does: the waiters registered for it that can be locked are
  -- flagged, and those that were not flagged already are woken, once each; those that cannot be
  -- locked are no longer registered; and nothing changes for other types and waiters.
  pub record Notified (key : ℕ) (waiters : Map (List ℕ)) (f : Flags) (waiters' : Map (List ℕ))
      (f' : Flags) : Type 0 where
    pub flagged : (w : ℕ) → f'.changed w ≡ (f.changed w || (locks w && is_registered key w waiters))
    pub woken :
        (w : ℕ)
        → f'.wakeups w ≡ (
            if locks w && is_registered key w waiters && not (f.changed w)
            then suc (f.wakeups w)
            else f.wakeups w)
    pub registered :
        (k w : ℕ)
        → is_registered k w waiters'
          ≡ (if key == k then locks w && is_registered k w waiters else is_registered k w waiters)

  action-Notified :
      (key : ℕ) (waiters : Map (List ℕ)) (f : Flags)
      → Notified key waiters f
          (action locks set_changed key waiters f).0
          (action locks set_changed key waiters f).1
  unfolding action visit contains
  action-Notified key waiters f = elim (Option-cases (find_key key waiters)) [
    | inl e ↦
        let missing : (w : ℕ) → is_registered key w waiters ≡ false = λ w. rw e refl in
        rw (action, e)
          (record {
            flagged = λ w. let m = missing w in ground arith;
            woken = λ w. let m = missing w in ground arith;
            registered = λ k w. elim (Bool-cases (key == k)) [
              | inl g ↦
                  let m =
                    subst (λ j. is_registered j w waiters ≡ false) ((==_iff key k).0 g)
                      (missing w) in
                  rw g (ground arith)
              | inr g ↦ rw g refl
            ];
          })
    | inr (ws, e) ↦
        let h = erase-Erases released tell ws f in
        let there : (w : ℕ) → is_registered key w waiters ≡ contains w ws = λ w. rw e refl in
        let met : (w : ℕ) → contains w h.order ≡ contains w ws = λ w. contains-Perm w h.tested in
        rw (action, e)
          (record {
            flagged = λ w.
                ap (λ g. g.changed w) h.effects
                ∙ (run-tell h.order f w).0
                ∙ rw (met w, there w) refl;
            woken = λ w.
                ap (λ g. g.wakeups w) h.effects
                ∙ (run-tell h.order f w).1
                ∙ rw (met w, there w) refl;
            registered = λ k w.
                put_back-registered key k _ waiters w ∙ elim (Bool-cases (key == k)) [
                  | inl g ↦
                      let t =
                        subst (λ j. is_registered j w waiters ≡ contains w ws) ((==_iff key k).0 g)
                          (there w) in
                      rw (g, t) (contains-Perm w h.left ∙ contains-released ws w)
                  | inr g ↦ rw g refl
                ];
          })
  ]

module _ {ℓ} {A : Type ℓ} (locks : ℕ → Bool) where
  -- Setting an item makes it the one that is there and leaves the items of other types, and the
  -- waiters are notified.
  pub set-Notified :
      (key : ℕ) (value : A) (b : Whiteboard A)
      → ((k : ℕ) → has k (set locks key value b) ≡ (if key == k then some value else has k b))
        × Notified locks key b.waiters b.flags
            (set locks key value b).waiters
            (set locks key value b).flags
  unfolding set did_change has
  set-Notified key value b =
      (λ k. find_key-set_key k key value b.items, action-Notified locks key b.waiters b.flags)

  -- Clearing an item removes it and leaves the items of other types, and the waiters are notified.
  pub clear-Notified :
      (key : ℕ) (b : Whiteboard A)
      → ((k : ℕ) → has k (clear locks key b) ≡ (if key == k then none else has k b))
        × Notified locks key b.waiters b.flags (clear locks key b).waiters (clear locks key b).flags
  unfolding clear did_change has
  clear-Notified key b =
      (λ k. find_key-erase_key k key b.items, action-Notified locks key b.waiters b.flags)
