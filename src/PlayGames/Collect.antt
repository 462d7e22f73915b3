-- ===== src/PlayGames/Collect.antt =====
-- The ids that each of some games gives, which a new order of the games only puts in a new order.
use mathlib.Core.List.{Perm, Permᴰ, perm_append_comm}
use mathlib.Core.List.Perm
use mathlib.Core.Logic.{∥∥₁_prop, ∥∥₁_elim}
use christians_steam_framewo.Base.{List, [], ◌∷◌, ◌++◌, append_assoc, subst}

module _ {ℓ κ} {A : Type ℓ} {B : Type κ} where
  -- What each item of a list gives, one after the other.
  unfoldable pub collect : (A → List B) → List A → List B
  collect f [] = []
  collect f (x ∷ xs) = f x ++ collect f xs

  collect-swap :
      (f : A → List B) (x y : A) (l : List A) → Perm (collect f (x ∷ y ∷ l)) (collect f (y ∷ x ∷ l))
  unfolding collect
  collect-swap f x y l =
      rw (← append_assoc (f x) (f y) (collect f l), ← append_assoc (f y) (f x) (collect f l))
        (Perm.append_right (collect f l) (perm_append_comm (f x) (f y)))

  collect-Permᴰ :
      (f : A → List B) {xs ys : List A} → Permᴰ xs ys → Perm (collect f xs) (collect f ys)
  unfolding collect
  collect-Permᴰ f Permᴰ.nil = Perm.refl []
  collect-Permᴰ f (Permᴰ.cons {a} {b} {l₁} {l₂} e d) =
      subst (λ c. Perm (f a ++ collect f l₁) (f c ++ collect f l₂)) e
        (Perm.append_left (f a) (collect-Permᴰ f d))
  collect-Permᴰ f (Permᴰ.swap {a} {b} {a' = c} {b' = d} {l} e e') =
      subst (λ d. Perm (collect f (a ∷ b ∷ l)) (collect f (c ∷ d ∷ l))) e
        (subst (λ c. Perm (collect f (a ∷ b ∷ l)) (collect f (c ∷ a ∷ l))) e'
          (collect-swap f a b l))
  collect-Permᴰ f (Permᴰ.trans d d') = Perm.trans (collect-Permᴰ f d) (collect-Permᴰ f d')

  pub collect-Perm :
      (f : A → List B) {xs ys : List A} → Perm xs ys → Perm (collect f xs) (collect f ys)
  collect-Perm f p = ∥∥₁_elim p ∥∥₁_prop (λ d. collect-Permᴰ f d)
