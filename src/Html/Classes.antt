-- ===== src/Html/Classes.antt =====
-- Whether an element has a class.
use mathlib.Core.List.{append_cancel_left, head-eq_of_cons-eq}
use christians_steam_framewo.Base.{
  ℕ, Bool, true, false, List, [], ◌∷◌, ◌++◌, append_assoc, append-nil, Option, none, some,
  if◌then◌else◌, ◌==◌, ==_iff, Bytes, Outcome, ok, bytes_eq, bytes_eq_iff, bytes_eq_ne, length,
  length-append, ◌≡◌, ◌≢◌, refl, sym, ap, ◌∙◌, Bool-cases, inl, inr, arith,
}
use christians_steam_framewo.Html.{
  to_lower, compare_next, advance, is_matched, at_space, check_from, check_class,
}

-- The words of a class string in lower case, behind the part of a word that was read before.
abbrev flush : Bytes → List Bytes → List Bytes
flush [] ws = ws
flush (c ∷ w) ws = (c ∷ w) ∷ ws

unfoldable pub words_from : Bytes → Bytes → List Bytes
words_from w [] = flush w []
words_from w (c ∷ s) =
    let next = flush w (words_from [] s) in
    let more = words_from (w ++ to_lower c ∷ []) s in if c == 32 then next else more

unfoldable pub has_word : Bytes → List Bytes → Bool
has_word name [] = false
has_word name (w ∷ ws) = if bytes_eq w name then true else has_word name ws

-- How the matcher and the mismatch stand for the part of a word that was read.
data Reads (name : Bytes) : Bytes → Option Bytes → Bool → Type 0 where
  none_read : Reads name [] none false
  read : (x : ℕ) (w r : Bytes) → name ≡ (x ∷ w) ++ r → Reads name (x ∷ w) (some r) false
  missed :
      (x : ℕ) (w r : Bytes) → ((t : Bytes) → name ≢ (x ∷ w) ++ t) → Reads name (x ∷ w) (some r) true

if_true-false : (b : Bool) → b ≡ (if b then true else false)
if_true-false true = refl
if_true-false false = refl

is_matched-Reads :
    (name w : Bytes) (matcher : Option Bytes) (mismatch : Bool) (ws : List Bytes)
    → Reads name w matcher mismatch
    → has_word name (flush w ws) ≡ (if is_matched matcher mismatch then true else has_word name ws)
unfolding is_matched has_word
is_matched-Reads name _ _ _ ws none_read = refl
is_matched-Reads name _ _ _ ws (read x w [] e) =
    rw ((bytes_eq_iff (x ∷ w) name).1 (sym (e ∙ append-nil (x ∷ w)))) refl
is_matched-Reads name _ _ _ ws (read x w (y ∷ r) e) =
    let differs : (x ∷ w) ≢ name =
      λ h. absurd (omega (arith, ap length (h ∙ e), length-append (x ∷ w) (y ∷ r))) in
    rw (bytes_eq_ne (x ∷ w) name differs) refl
is_matched-Reads name _ _ _ ws (missed x w r n) =
    rw (bytes_eq_ne (x ∷ w) name (λ h. n [] (sym h ∙ sym (append-nil (x ∷ w))))) refl

read_at :
    (name w r : Bytes) (c : ℕ) → name ≡ (w ++ c ∷ []) ++ r → Reads name (w ++ c ∷ []) (some r) false
read_at name [] r c e = read c [] r e
read_at name (x ∷ w) r c e = read x (w ++ c ∷ []) r e

missed_at :
    (name w r : Bytes) (c : ℕ)
    → ((t : Bytes) → name ≢ (w ++ c ∷ []) ++ t)
    → Reads name (w ++ c ∷ []) (some r) true
missed_at name [] r c n = missed c [] r n
missed_at name (x ∷ w) r c n = missed x (w ++ c ∷ []) r n

-- What comes of a character is in step with the part of the word that was read.
abbrev Steps : (name w : Bytes) → Outcome (Bytes × Bool) → Type 0
Steps name w o =
    (r : Bytes) × (mismatch : Bool) × (o ≡ ok (r, mismatch)) × Reads name w (some r) mismatch

compare_next-Steps :
    (name w r : Bytes) (c : ℕ)
    → name ≡ w ++ r
    → (c == 0) ≡ false
    → Steps name (w ++ c ∷ []) (compare_next r c)
unfolding compare_next
compare_next-Steps name w [] c e z = (
  [],
  true,
  rw z refl,
  missed_at name w [] c (λ t h. absurd (
      omega (
        arith,
        ap length (sym e ∙ h),
        length-append w [],
        length-append w (c ∷ []),
        length-append (w ++ c ∷ []) t,
      ))),
)
compare_next-Steps name w (d ∷ r) c e z = elim (Bool-cases (d == c)) [
  | inl q ↦ (
    r,
    false,
    rw q refl,
    read_at name w r c
        (e ∙ ap (λ x. w ++ x ∷ r) ((==_iff d c).0 q) ∙ sym (append_assoc w (c ∷ []) r)),
  )
  | inr q ↦ (
    d ∷ r,
    true,
    rw q refl,
    missed_at name w (d ∷ r) c (λ t h.
        let same : d ∷ r ≡ c ∷ t =
          append_cancel_left w (d ∷ r) (c ∷ t) (sym e ∙ h ∙ append_assoc w (c ∷ []) t) in
        absurd (ground (arith, q, head-eq_of_cons-eq same))),
  )
]

advance-Steps :
    (name w : Bytes) (c : ℕ) (matcher : Option Bytes) (mismatch : Bool)
    → Reads name w matcher mismatch
    → (to_lower c == 0) ≡ false
    → Steps name (w ++ to_lower c ∷ []) (advance name c matcher mismatch)
unfolding advance
advance-Steps name _ c _ _ none_read z = compare_next-Steps name [] name (to_lower c) refl z
advance-Steps name _ c _ _ (read x w r e) z = compare_next-Steps name (x ∷ w) r (to_lower c) e z
advance-Steps name _ c _ _ (missed x w r n) z = (
  r,
  true,
  refl,
  missed_at name (x ∷ w) r (to_lower c)
      (λ t h. n (to_lower c ∷ t) (h ∙ append_assoc (x ∷ w) (to_lower c ∷ []) t)),
)

at_space-Reads :
    (name w : Bytes) (matcher : Option Bytes) (mismatch : Bool)
    → Reads name w matcher mismatch
    → Reads name [] none (at_space matcher mismatch)
unfolding at_space
at_space-Reads name _ _ _ none_read = none_read
at_space-Reads name _ _ _ (read x w r e) = none_read
at_space-Reads name _ _ _ (missed x w r n) = none_read

-- There is no NUL in a string.
abbrev pub NoNul : Bytes → Type 0
NoNul [] = Unit
NoNul (c ∷ s) = ((c == 0) ≡ false) × NoNul s

to_lower-ne-0 : (c : ℕ) → (c == 0) ≡ false → (to_lower c == 0) ≡ false
to_lower-ne-0 c h = ground arith

if-ok : (b x : Bool) → (if b then ok true else ok x) ≡ ok (if b then true else x)
if-ok true x = refl
if-ok false x = refl

check_from-words :
    (name w s : Bytes) (matcher : Option Bytes) (mismatch : Bool)
    → NoNul s
    → Reads name w matcher mismatch
    → check_from name s matcher mismatch ≡ ok (has_word name (words_from w s))
unfolding check_from words_from has_word
check_from-words name w [] matcher mismatch z h = ap ok (
    if_true-false (is_matched matcher mismatch)
    ∙ sym (is_matched-Reads name w matcher mismatch [] h))
check_from-words name w (c ∷ s) matcher mismatch (z, zs) h = elim (Bool-cases (c == 32)) [
  | inl e ↦ rw e (
      ap (λ (rest : Outcome Bool). if is_matched matcher mismatch then ok true else rest)
        (check_from-words name [] s none (at_space matcher mismatch) zs
          (at_space-Reads name w matcher mismatch h))
      ∙ (if-ok (is_matched matcher mismatch) (has_word name (words_from [] s))
          ∙ ap ok (sym (is_matched-Reads name w matcher mismatch (words_from [] s) h))))
  | inr e ↦
      let (r, mismatch', step, reads) =
        advance-Steps name w c matcher mismatch h (to_lower-ne-0 c z) in
      rw e (rw step (check_from-words name (w ++ to_lower c ∷ []) s (some r) mismatch' zs reads))
]

-- In a class string without a NUL, `checkClass` finds a class name exactly if it is one of the words
-- between the spaces of the string, in lower case.
pub check_class_lem :
    (s name : Bytes) → NoNul s → check_class s name ≡ ok (has_word name (words_from [] s))
unfolding check_class
check_class_lem s name z = check_from-words name [] s none false z none_read
