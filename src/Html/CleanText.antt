-- ===== src/Html/CleanText.antt =====
-- What `getCleanText` gives.
use mathlib.Core.List.{cons-ne-nil}
use christians_steam_framewo.Base.{
  ℕ, Bool, true, false, not, ◌&&◌, ◌||◌, List, [], ◌∷◌, ◌++◌, ◌==◌, Bytes, ◌≡◌, ◌⊎◌, refl,
  Bool-cases, inl, inr, arith,
}
use christians_steam_framewo.Html.{
  is_blank, wants_space, collect_char, collect_text, collect_texts, drop_space, get_clean_text,
}

-- No tab and no line break, and no space behind a space; `after` says that a space stands in front.
unfoldable pub Single : Bool → Bytes → Type 0
Single after [] = Unit
Single after (c ∷ s) = (is_blank c ≡ false) × ((after && c == 32) ≡ false) × Single (c == 32) s

-- Whether a space stands last.
unfoldable ends_in_space : Bool → Bytes → Bool
ends_in_space after [] = after
ends_in_space after (c ∷ s) = ends_in_space (c == 32) s

wants_space_cons :
    (after : Bool) (c : ℕ) (s : Bytes) → wants_space (c ∷ s) ≡ not (ends_in_space after (c ∷ s))
unfolding wants_space ends_in_space
wants_space_cons after c [] = refl
wants_space_cons after c (d ∷ s) = wants_space_cons (c == 32) d s

Single-append :
    (after : Bool) (s : Bytes) (c : ℕ)
    → Single after s
    → is_blank c ≡ false
    → (ends_in_space after s && c == 32) ≡ false
    → Single after (s ++ c ∷ [])
unfolding Single ends_in_space
Single-append after [] c h b e = (b, e, tt)
Single-append after (d ∷ s) c (p, q, h) b e = (p, q, Single-append (d == 32) s c h b e)

no_space_last : (s : Bytes) → wants_space s ≡ true → ends_in_space true s ≡ false
unfolding wants_space
no_space_last [] h = absurd cc
no_space_last (c ∷ s) h = ground (arith, h, wants_space_cons true c s)

Single-nil : Single true []
unfolding Single
Single-nil = tt

collect_char-Single : (s : Bytes) (c : ℕ) → Single true s → Single true (collect_char s c)
unfolding collect_char
collect_char-Single s c h = elim (Bool-cases (is_blank c || c == 32)) [
  | inl e ↦ elim (Bool-cases (wants_space s)) [
    | inl w ↦ rw (e, w) (Single-append true s 32 h refl (rw (no_space_last s w) refl))
    | inr w ↦ rw (e, w) h
  ]
  | inr e ↦ rw e (Single-append true s c h (ground (arith, e)) (ground (arith, e)))
]

collect_text-Single : (s text : Bytes) → Single true s → Single true (collect_text s text)
unfolding collect_text
collect_text-Single s [] h = h
collect_text-Single s (c ∷ text) h =
    collect_text-Single (collect_char s c) text (collect_char-Single s c h)

collect_texts-Single :
    (s : Bytes) (texts : List Bytes) → Single true s → Single true (collect_texts s texts)
unfolding collect_texts
collect_texts-Single s [] h = h
collect_texts-Single s (t ∷ ts) h =
    collect_texts-Single (collect_text s t) ts (collect_text-Single s t h)

drop_space-Single : (after : Bool) (s : Bytes) → Single after s → Single after (drop_space s)
unfolding Single drop_space
drop_space-Single after [] h = h
drop_space-Single after (c ∷ []) h = elim (Bool-cases (c == 32)) [
  | inl e ↦ rw e tt
  | inr e ↦ rw e h
]
drop_space-Single after (c ∷ d ∷ s) (p, q, h) = (p, q, drop_space-Single (c == 32) (d ∷ s) h)

wants_space_behind : (c : ℕ) (s : Bytes) → wants_space s ≡ true → wants_space (c ∷ s) ≡ true
unfolding wants_space
wants_space_behind c [] h = absurd cc
wants_space_behind c (d ∷ s) h = h

drop_space-nil : (d : ℕ) (s : Bytes) → drop_space (d ∷ s) ≡ [] → (d == 32) ≡ true
unfolding drop_space
drop_space-nil d [] h = elim (Bool-cases (d == 32)) [
  | inl e ↦ e
  | inr e ↦ absurd (cons-ne-nil _ _ (rw e at h))
]
drop_space-nil d (x ∷ s) h = absurd (cons-ne-nil _ _ h)

-- Once the last space is dropped, nothing is left or another character stands last.
drop_space-end :
    (after : Bool) (s : Bytes)
    → Single after s
    → (drop_space s ≡ []) ⊎ (wants_space (drop_space s) ≡ true)
unfolding Single drop_space wants_space
drop_space-end after [] h = inl refl
drop_space-end after (c ∷ []) h = elim (Bool-cases (c == 32)) [
  | inl e ↦ inl (rw e refl)
  | inr e ↦ inr (rw e (rw e refl))
]
drop_space-end after (c ∷ d ∷ s) (p, q, h) = elim (drop_space-end (c == 32) (d ∷ s) h) [
  | inr w ↦ inr (wants_space_behind c (drop_space (d ∷ s)) w)
  | inl n ↦
      let space : (d == 32) ≡ true = drop_space-nil d s n in
      let other : (c == 32) ≡ false = ground (arith, space, h.1) in inr (rw n (rw other refl))
]

-- The text of an element holds no tab and no line break, has no two spaces in a row, and neither
-- starts nor ends with a space.
pub get_clean_text-Single :
    (texts : List Bytes)
    → Single true (get_clean_text texts)
      × ((get_clean_text texts ≡ []) ⊎ (wants_space (get_clean_text texts) ≡ true))
unfolding get_clean_text
get_clean_text-Single texts =
    let h = collect_texts-Single [] texts Single-nil in
    (
      drop_space-Single true (collect_texts [] texts) h,
      drop_space-end true (collect_texts [] texts) h,
    )
