-- ===== src/Base/Sort.antt =====
-- `std::sort` with a comparison, as insertion sort: one of the orders that it allows where elements
-- compare as equal.
use mathlib.Core.Path.{◌≡◌, refl}
use mathlib.Core.Logic.{inl, inr}
use mathlib.Core.Bool.{Bool, true, false}
use mathlib.Core.List.{List, [], ◌∷◌, Permᴰ}
use mathlib.Core.List.Permᴰ
use christians_steam_framewo.Base.Tests.{if◌then◌else◌, Bool-cases}
use christians_steam_framewo.Base.Lists.{All}

module _ {ℓ} {A : Type ℓ} where
  unfoldable pub insert_sorted : (A → A → Bool) → A → List A → List A
  insert_sorted less x [] = x ∷ []
  insert_sorted less x (y ∷ ys) =
      let rest = insert_sorted less x ys in if less y x then y ∷ rest else x ∷ y ∷ ys

  unfoldable pub sort : (A → A → Bool) → List A → List A
  unfolding insert_sorted
  sort less [] = []
  sort less (x ∷ xs) = insert_sorted less x (sort less xs)

  insert_sorted-Permᴰ :
      (less : A → A → Bool) (x : A) (ys : List A) → Permᴰ (insert_sorted less x ys) (x ∷ ys)
  unfolding insert_sorted
  insert_sorted-Permᴰ less x [] = Permᴰ.refl _
  insert_sorted-Permᴰ less x (y ∷ ys) = elim (Bool-cases (less y x)) [
    | inl e ↦
        rw e (Permᴰ.trans (Permᴰ.cons refl (insert_sorted-Permᴰ less x ys)) (Permᴰ.swap refl refl))
    | inr e ↦ rw e (Permᴰ.refl _)
  ]

  -- Sorting keeps the elements.
  pub sort-Permᴰ : (less : A → A → Bool) (xs : List A) → Permᴰ (sort less xs) xs
  unfolding sort
  sort-Permᴰ less [] = Permᴰ.nil
  sort-Permᴰ less (x ∷ xs) =
      Permᴰ.trans (insert_sorted-Permᴰ less x (sort less xs)) (Permᴰ.cons refl (sort-Permᴰ less xs))

  -- No element is less than one before it.
  abbrev pub Sorted : (A → A → Bool) → List A → Type 0
  Sorted less [] = Unit
  Sorted less (x ∷ xs) = All (λ y. less y x ≡ false) xs × Sorted less xs

  pub All-imp : (P Q : A → Type 0) (xs : List A) → ((x : A) → P x → Q x) → All P xs → All Q xs
  All-imp P Q [] f h = tt
  All-imp P Q (x ∷ xs) f (h, hs) = (f x h, All-imp P Q xs f hs)

  insert_sorted-All :
      (P : A → Type 0) (less : A → A → Bool) (x : A) (ys : List A)
      → P x
      → All P ys
      → All P (insert_sorted less x ys)
  unfolding insert_sorted
  insert_sorted-All P less x [] h hs = (h, tt)
  insert_sorted-All P less x (y ∷ ys) h (k, ks) = elim (Bool-cases (less y x)) [
    | inl e ↦ rw e (k, insert_sorted-All P less x ys h ks)
    | inr e ↦ rw e (h, (k, ks))
  ]

  module _ (less : A → A → Bool) (asymmetric : (x y : A) → less x y ≡ true → less y x ≡ false)
      (transitive : (x y z : A) → less x y ≡ false → less y z ≡ false → less x z ≡ false) where
    insert_sorted-Sorted :
        (x : A) (ys : List A) → Sorted less ys → Sorted less (insert_sorted less x ys)
    unfolding insert_sorted
    insert_sorted-Sorted x [] h = (tt, tt)
    insert_sorted-Sorted x (y ∷ ys) (h, hs) = elim (Bool-cases (less y x)) [
      | inl e ↦ rw e (
        insert_sorted-All (λ z. less z y ≡ false) less x ys (asymmetric y x e) h,
        insert_sorted-Sorted x ys hs,
      )
      | inr e ↦ rw e (
        (
          e,
          All-imp (λ z. less z y ≡ false) (λ z. less z x ≡ false) ys (λ z f. transitive z y x f e)
              h,
        ),
        (h, hs),
      )
    ]

    -- Sorting by a strict weak order.
    pub sort-Sorted : (xs : List A) → Sorted less (sort less xs)
    unfolding sort
    sort-Sorted [] = tt
    sort-Sorted (x ∷ xs) = insert_sorted-Sorted x (sort less xs) (sort-Sorted xs)
