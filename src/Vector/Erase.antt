-- ===== src/Vector/Erase.antt =====
-- What `erase` leaves, counts and tests.
use mathlib.Core.List.{Perm, perm_append_singleton}
use mathlib.Core.List.Perm
use christians_steam_framewo.Base.{
  ℕ, zero, suc, ◌+◌, ◌≤◌, Bool, true, false, List, [], ◌∷◌, ◌++◌, append_assoc, append-nil,
  if◌then◌else◌, length, length-append, ◌≡◌, refl, sym, ap, subst, arith, Bool-cases, inl, inr,
}
use christians_steam_framewo.Vector.{split_last, move_last, advance, erase_from, erase}

module _ {ℓ} {A : Type ℓ} where
  -- The items that a test lets stay.
  unfoldable pub reject : (A → Bool) → List A → List A
  reject p [] = []
  reject p (x ∷ xs) = if p x then reject p xs else x ∷ reject p xs

  reject-append : (p : A → Bool) (xs ys : List A) → reject p (xs ++ ys) ≡ reject p xs ++ reject p ys
  unfolding reject
  reject-append p [] ys = refl
  reject-append p (x ∷ xs) ys = elim (Bool-cases (p x)) [
    | inl e ↦ rw e (reject-append p xs ys)
    | inr e ↦ rw e (ap (◌∷◌ x) (reject-append p xs ys))
  ]

  split_last-append :
      (x : A) (xs : List A) → (split_last x xs).0 ++ (split_last x xs).1 ∷ [] ≡ x ∷ xs
  unfolding split_last
  split_last-append x [] = refl
  split_last-append x (y ∷ ys) = ap (◌∷◌ x) (split_last-append y ys)

  move_last-perm : (xs : List A) → Perm (move_last xs) xs
  unfolding move_last
  move_last-perm [] = Perm.refl []
  move_last-perm (x ∷ xs) =
      let (front, back) = split_last x xs in
      rw (← split_last-append x xs) (Perm.symm (perm_append_singleton back front))

  length-move_last : (xs : List A) → length (move_last xs) ≡ length xs
  unfolding move_last
  length-move_last [] = refl
  length-move_last (x ∷ xs) = omega (
    arith,
    ap length (split_last-append x xs),
    length-append (split_last x xs).0 ((split_last x xs).1 ∷ []),
  )

  reject-cons-perm :
      (p : A → Bool) (x : A) (xs : List A) → Perm (reject p (x ∷ xs)) (reject p (xs ++ x ∷ []))
  unfolding reject
  reject-cons-perm p x xs = elim (Bool-cases (p x)) [
    | inl e ↦ rw (e, reject-append) (rw e (rw append-nil (Perm.refl _)))
    | inr e ↦ rw (e, reject-append) (rw e (Perm.symm (perm_append_singleton x (reject p xs))))
  ]

  reject-move_last-perm :
      (p : A → Bool) (xs : List A) → Perm (reject p (move_last xs)) (reject p xs)
  unfolding move_last
  reject-move_last-perm p [] = Perm.refl _
  reject-move_last-perm p (x ∷ xs) =
      let (front, back) = split_last x xs in
      rw (← split_last-append x xs) (reject-cons-perm p back front)

  length-reject-move_last :
      (p : A → Bool) (xs : List A) → length (reject p (move_last xs)) ≡ length (reject p xs)
  unfolding move_last
  length-reject-move_last p [] = refl
  length-reject-move_last p (x ∷ xs) =
      let (front, back) = split_last x xs in
      rw (← split_last-append x xs) (
        rw reject-append (
          omega (
            arith,
            length-append (reject p front) (reject p (back ∷ [])),
            ap length (reject-append p (back ∷ []) front),
            length-append (reject p (back ∷ [])) (reject p front),
          )))

  reject_hit : (p : A → Bool) (x : A) (xs : List A) → p x ≡ true → reject p (x ∷ xs) ≡ reject p xs
  unfolding reject
  reject_hit p x xs e = rw e

  reject_miss :
      (p : A → Bool) (x : A) (xs : List A) → p x ≡ false → reject p (x ∷ xs) ≡ x ∷ reject p xs
  unfolding reject
  reject_miss p x xs e = rw e

module _ {ℓ κ} {A : Type ℓ} {S : Type κ} where
  -- The effects of testing the items of a list, one after the other.
  unfoldable pub run : (A → S → S) → List A → S → S
  run step [] s = s
  run step (x ∷ xs) s = run step xs (step x s)

  -- What a call of `erase` is to do: leave the items that the test lets stay, count the others, and
  -- test each item once, in some order.
  pub record Erases (p : A → Bool) (step : A → S → S) (kept rest : List A) (s : S)
      (r : (List A × ℕ) × S) : Type (ℓ ⊔ κ) where
    pub left : Perm r.0.0 (kept ++ reject p rest)
    pub counted : r.0.1 + length (reject p rest) ≡ length rest
    pub order : List A
    pub tested : Perm order rest
    pub effects : r.1 ≡ run step order s

  -- One more item erased.
  abbrev counted_up : (List A × ℕ) × S → (List A × ℕ) × S
  counted_up r = ((r.0.0, r.0.1 + 1), r.1)

  erase_from_hit :
      (p : A → Bool) (step : A → S → S) (n : ℕ) (kept rest : List A) (x : A) (s : S)
      → p x ≡ true
      → erase_from (suc n) (λ x s. (step x s, p x)) kept (x ∷ rest) s
        ≡ counted_up (erase_from n (λ x s. (step x s, p x)) kept (move_last rest) (step x s))
  unfolding erase_from advance
  erase_from_hit p step n kept rest x s e = rw e

  erase_from_miss :
      (p : A → Bool) (step : A → S → S) (n : ℕ) (kept rest : List A) (x : A) (s : S)
      → p x ≡ false
      → erase_from (suc n) (λ x s. (step x s, p x)) kept (x ∷ rest) s
        ≡ erase_from n (λ x s. (step x s, p x)) (kept ++ x ∷ []) rest (step x s)
  unfolding erase_from advance
  erase_from_miss p step n kept rest x s e = rw e

  Erases-hit :
      (p : A → Bool) (step : A → S → S) (kept rest : List A) (x : A) (s : S) (r : (List A × ℕ) × S)
      → p x ≡ true
      → Erases p step kept (move_last rest) (step x s) r
      → Erases p step kept (x ∷ rest) s (counted_up r)
  unfolding run
  Erases-hit p step kept rest x s r e h = record {
    left =
        rw (reject_hit p x rest e)
          (Perm.trans h.left (Perm.append_left kept (reject-move_last-perm p rest)));
    counted = omega (
      arith,
      h.counted,
      ap length (reject_hit p x rest e),
      length-reject-move_last p rest,
      length-move_last rest,
    );
    order = x ∷ h.order;
    tested = Perm.cons x (Perm.trans h.tested (move_last-perm rest));
    effects = h.effects;
  }

  Erases-miss :
      (p : A → Bool) (step : A → S → S) (kept rest : List A) (x : A) (s : S) (r : (List A × ℕ) × S)
      → p x ≡ false
      → Erases p step (kept ++ x ∷ []) rest (step x s) r
      → Erases p step kept (x ∷ rest) s r
  unfolding run
  Erases-miss p step kept rest x s r e h = record {
    left = rw (reject_miss p x rest e) (rw (append_assoc kept (x ∷ []) (reject p rest)) at h.left);
    counted = omega (arith, h.counted, ap length (reject_miss p x rest e));
    order = x ∷ h.order;
    tested = Perm.cons x h.tested;
    effects = h.effects;
  }

  Erases-nothing :
      (p : A → Bool) (step : A → S → S) (kept : List A) (s : S)
      → Erases p step kept [] s ((kept, 0), s)
  unfolding reject run
  Erases-nothing p step kept s = record {
    left = rw append-nil (Perm.refl _);
    counted = refl;
    order = [];
    tested = Perm.refl [];
    effects = refl;
  }

  erase_from-Erases :
      (p : A → Bool) (step : A → S → S) (n : ℕ) (kept rest : List A) (s : S)
      → length rest ≤ n
      → Erases p step kept rest s (erase_from n (λ x s. (step x s, p x)) kept rest s)
  unfolding erase_from
  erase_from-Erases p step zero kept [] s l = rw append-nil (Erases-nothing p step kept s)
  erase_from-Erases p step zero kept (x ∷ rest) s l = absurd (omega arith)
  erase_from-Erases p step (suc n) kept [] s l = Erases-nothing p step kept s
  erase_from-Erases p step (suc n) kept (x ∷ rest) s l = elim (Bool-cases (p x)) [
    | inl e ↦
        subst (Erases p step kept (x ∷ rest) s) (sym (erase_from_hit p step n kept rest x s e)) (
          Erases-hit p step kept rest x s _ e (
            erase_from-Erases p step n kept (move_last rest) (step x s)
              (omega (arith, length-move_last rest))))
    | inr e ↦
        subst (Erases p step kept (x ∷ rest) s) (sym (erase_from_miss p step n kept rest x s e)) (
          Erases-miss p step kept rest x s _ e
            (erase_from-Erases p step n (kept ++ x ∷ []) rest (step x s) (omega arith)))
  ]

  -- `erase` leaves the items that its test lets stay, in some order, counts those it erases, and
  -- tests each item once, if the verdict does not depend on the effects of the tests before.
  pub erase-Erases :
      (p : A → Bool) (step : A → S → S) (xs : List A) (s : S)
      → Erases p step [] xs s (erase (λ x s. (step x s, p x)) xs s)
  unfolding erase
  erase-Erases p step xs s = erase_from-Erases p step (length xs) [] xs s (omega arith)
