-- ===== src/StringCompare.antt =====
-- Headers/Helpers/StringCompare.hpp and Sources/Helpers/StringCompare.cpp: comparing strings without
-- regard to the case of ASCII letters. A `char` is its byte; it compares as the signed number that
-- the byte stands for, so the bytes from 128 to 255 come first.
use mathlib.Core.List.{cons-ne-nil, head-eq_of_cons-eq, tail-eq_of_cons-eq}
use christians_steam_framewo.Base.{
  ℕ, ◌+◌, ◌-◌, Bool, true, false, [], ◌∷◌, map, if◌then◌else◌, within, ltb, Bytes, ◌≡◌, ◌≢◌, ◌↔◌,
  refl, sym, arith, ◌⊎◌, Bool-cases, inl, inr,
}

-- std::weak_ordering
pub data WeakOrdering : Type 0 where
  less equivalent greater : WeakOrdering

-- The adjustment of the lambda's arguments: 'A' to 'Z' become 'a' to 'z'.
unfoldable pub lower : ℕ → ℕ
lower c = if within 65 90 c then c + 32 else c

-- The signed char of a byte, 128 added.
abbrev signed_char : ℕ → ℕ
signed_char c = if within 128 255 c then c - 128 else c + 128

unfoldable pub compare_chars : ℕ → ℕ → WeakOrdering
unfolding lower
compare_chars a b =
    let x = signed_char (lower a) in
    let y = signed_char (lower b) in
    if ltb x y then less else if ltb y x then greater else equivalent

-- std::lexicographical_compare_three_way
unfoldable pub compare_strings : Bytes → Bytes → WeakOrdering
unfolding compare_chars
compare_strings [] [] = equivalent
compare_strings [] (b ∷ r) = less
compare_strings (a ∷ l) [] = greater
compare_strings (a ∷ l) (b ∷ r) =
    let rest = compare_strings l r in elim (compare_chars a b) [ equivalent ↦ rest | o ↦ o ]

unfoldable pub compare_less : Bytes → Bytes → Bool
unfolding compare_strings
compare_less a b = elim (compare_strings a b) [ less ↦ true | _ ↦ false ]

unfoldable pub compare_equal : Bytes → Bytes → Bool
unfolding compare_strings
compare_equal a b = elim (compare_strings a b) [ equivalent ↦ true | _ ↦ false ]

signed_char-injective : (a b : ℕ) → signed_char a ≡ signed_char b → a ≡ b
signed_char-injective a b e = ground arith

compare_chars_eq : (a b : ℕ) → lower a ≡ lower b → compare_chars a b ≡ equivalent
unfolding compare_chars
compare_chars_eq a b e = rw e (ground arith)

compare_chars-equivalent : (a b : ℕ) → compare_chars a b ≡ equivalent → lower a ≡ lower b
unfolding compare_chars
compare_chars-equivalent a b e =
    let x = signed_char (lower a) in
    let y = signed_char (lower b) in
    elim (Bool-cases (ltb x y)) [
      | inl p ↦ absurd (ground (arith, rw p at e))
      | inr p ↦ elim (Bool-cases (ltb y x)) [
        | inl q ↦ absurd (ground (arith, rw (p, q) at e))
        | inr q ↦ signed_char-injective (lower a) (lower b) (ground (arith, p, q))
      ]
    ]

WeakOrdering-cases : (o : WeakOrdering) → (o ≡ equivalent) ⊎ (o ≢ equivalent)
WeakOrdering-cases less = inr (λ e. ground arith)
WeakOrdering-cases equivalent = inl refl
WeakOrdering-cases greater = inr (λ e. ground arith)

rest_if-equivalent :
    (o rest : WeakOrdering) → (elim o [ equivalent ↦ rest | o ↦ o ]) ≡ equivalent → o ≡ equivalent
rest_if-equivalent less rest h = h
rest_if-equivalent equivalent rest h = refl
rest_if-equivalent greater rest h = h

is_equivalent :
    (o : WeakOrdering) → (elim o [ equivalent ↦ true | _ ↦ false ]) ≡ true → o ≡ equivalent
is_equivalent less h = absurd (ground arith)
is_equivalent equivalent h = refl
is_equivalent greater h = absurd (ground arith)

compare_strings-equivalent :
    (a b : Bytes) → (compare_strings a b ≡ equivalent) ↔ (map lower a ≡ map lower b)
unfolding compare_strings
compare_strings-equivalent [] [] = (λ _. refl, λ _. refl)
compare_strings-equivalent [] (b ∷ r) =
    (λ h. absurd (ground arith), λ h. absurd (cons-ne-nil _ _ (sym h)))
compare_strings-equivalent (a ∷ l) [] =
    (λ h. absurd (ground arith), λ h. absurd (cons-ne-nil _ _ h))
compare_strings-equivalent (a ∷ l) (b ∷ r) =
    let (to, from) = compare_strings-equivalent l r in
    (
      λ h. elim (WeakOrdering-cases (compare_chars a b)) [
        | inl e ↦
            let rest : compare_strings l r ≡ equivalent = rw (compare_strings, e) at h in
            rw (compare_chars-equivalent a b e, to rest)
        | inr n ↦
            absurd
              (ground (arith, n, rest_if-equivalent (compare_chars a b) (compare_strings l r) h))
      ],
      λ h.
          rw (compare_strings, compare_chars_eq a b (head-eq_of_cons-eq h))
            (from (tail-eq_of_cons-eq h)),
    )

-- Two strings compare as equal exactly if they are the same once 'A' to 'Z' are made lower case.
pub compare_equal_iff : (a b : Bytes) → (compare_equal a b ≡ true) ↔ (map lower a ≡ map lower b)
unfolding compare_equal
compare_equal_iff a b =
    let (to, from) = compare_strings-equivalent a b in
    (λ h. to (is_equivalent (compare_strings a b) h), λ h. rw (compare_equal, from h) refl)
