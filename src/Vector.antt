-- ===== src/Vector.antt =====
-- Headers/Vector.hpp: `SteamBot::erase`, which moves the last item into the place of one that is
-- erased. The vector is split at the loop's index: the items kept, and those still to be tested.
-- The predicate may have effects, so it takes and returns a state.
pub mod Erase
use christians_steam_framewo.Base.{
  ℕ, zero, suc, ◌+◌, Bool, true, false, List, [], ◌∷◌, ◌++◌, if◌then◌else◌, length,
}

module _ {ℓ} {A : Type ℓ} where
  -- A list that is not empty as all but its last item, and the last item.
  unfoldable pub split_last : A → List A → List A × A
  split_last x [] = ([], x)
  split_last x (y ∷ ys) = let (front, back) = split_last y ys in (x ∷ front, back)

  -- What stands behind an erased item, with the last one moved to the front.
  unfoldable pub move_last : List A → List A
  unfolding split_last
  move_last [] = []
  move_last (y ∷ ys) = let (front, back) = split_last y ys in back ∷ front

  -- Where the loop goes on: at the same index with the gap closed, or at the next one.
  unfoldable pub advance : Bool → List A → A → List A → List A × List A
  unfolding move_last
  advance erased kept x rest = if erased then (kept, move_last rest) else (kept ++ x ∷ [], rest)

module _ {ℓ κ} {A : Type ℓ} {S : Type κ} where
  -- The loop from an index on: the vector it leaves, the number of items erased, and the state. Each
  -- round tests an item, so fuel for as many rounds as there are items is enough.
  unfoldable pub erase_from : ℕ → (A → S → S × Bool) → List A → List A → S → (List A × ℕ) × S
  unfolding advance
  erase_from zero pred kept rest s = ((kept ++ rest, 0), s)
  erase_from (suc n) pred kept [] s = ((kept, 0), s)
  erase_from (suc n) pred kept (x ∷ rest) s =
      let (s', erased) = pred x s in
      let (kept', rest') = advance erased kept x rest in
      let ((vector, count), s'') = erase_from n pred kept' rest' s' in
      ((vector, if erased then count + 1 else count), s'')

  unfoldable pub erase : (A → S → S × Bool) → List A → S → (List A × ℕ) × S
  unfolding erase_from
  erase pred vector s = erase_from (length vector) pred [] vector s
