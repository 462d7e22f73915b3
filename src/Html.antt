-- ===== src/Html.antt =====
-- Sources/Helpers/HTML.cpp: class attributes and text. A class name is a C string: its end is the
-- end of the list, and it holds no NUL.
pub mod Classes
pub mod CleanText
use christians_steam_framewo.Base.{
  ℕ, ◌+◌, Bool, true, false, not, ◌&&◌, ◌||◌, List, [], ◌∷◌, ◌++◌, Option, none, some,
  if◌then◌else◌, within, ◌==◌, Bytes, Outcome, ok, aborted, ◌>>=◌,
}

-- 'A' to 'Z' have the bit 0x20 clear.
abbrev pub to_lower : ℕ → ℕ
to_lower c = if within 65 90 c then c + 32 else c

abbrev pub is_empty : Bytes → Bool
is_empty [] = true
is_empty (_ ∷ _) = false

-- `*matcher==c`, and the matcher and the mismatch after it. A NUL matches the terminator of the class
-- name; the matcher is then behind it, and what the function does next reads there, which is undefined.
unfoldable pub compare_next : Bytes → ℕ → Outcome (Bytes × Bool)
compare_next [] c = if c == 0 then aborted else ok ([], true)
compare_next (d ∷ r) c = ok (if d == c then (r, false) else (d ∷ r, true))

-- The matcher, none for nullptr, and the mismatch, after a character that is not a space.
unfoldable pub advance : Bytes → ℕ → Option Bytes → Bool → Outcome (Bytes × Bool)
unfolding compare_next
advance name c none false = compare_next name (to_lower c)
advance name c none true = ok (name, true)
advance name c (some r) false = compare_next r (to_lower c)
advance name c (some r) true = ok (r, true)

-- Whether the word that ends here is the class name.
unfoldable pub is_matched : Option Bytes → Bool → Bool
is_matched none mismatch = false
is_matched (some r) mismatch = not mismatch && is_empty r

-- At a space, the matcher is reset, and with it the mismatch.
unfoldable pub at_space : Option Bytes → Bool → Bool
at_space none mismatch = mismatch
at_space (some r) mismatch = false

-- The loop from a character on.
unfoldable pub check_from : Bytes → Bytes → Option Bytes → Bool → Outcome Bool
unfolding advance is_matched at_space
check_from name [] matcher mismatch = ok (is_matched matcher mismatch)
check_from name (c ∷ s) matcher mismatch =
    let rest =
      if c == 32
      then check_from name s none (at_space matcher mismatch)
      else (advance name c matcher mismatch >>= λ (r, mismatch').
          check_from name s (some r) mismatch') in
    if c == 32 && is_matched matcher mismatch then ok true else rest

-- `checkClass` on a class string, and on an element's class attribute.
unfoldable pub check_class : Bytes → Bytes → Outcome Bool
unfolding check_from
check_class s name = check_from name s none false

unfoldable pub check_attribute_class : Option Bytes → Bytes → Outcome Bool
unfolding check_class
check_attribute_class none name = ok false
check_attribute_class (some s) name = check_class s name

-- `getCleanText`, on the texts of an element's tree in the order in which `collect` comes to them.
abbrev pub is_blank : ℕ → Bool
is_blank c = c == 9 || c == 10 || c == 13

-- `!result.empty() && result.back()!=' '`
unfoldable pub wants_space : Bytes → Bool
wants_space [] = false
wants_space (c ∷ []) = not (c == 32)
wants_space (c ∷ d ∷ s) = wants_space (d ∷ s)

unfoldable pub collect_char : Bytes → ℕ → Bytes
unfolding wants_space
collect_char result c =
    if is_blank c || c == 32
    then (if wants_space result then result ++ 32 ∷ [] else result)
    else result ++ c ∷ []

unfoldable pub collect_text : Bytes → Bytes → Bytes
unfolding collect_char
collect_text result [] = result
collect_text result (c ∷ s) = collect_text (collect_char result c) s

-- `result.back()==' '` and `pop_back`
unfoldable pub drop_space : Bytes → Bytes
drop_space [] = []
drop_space (c ∷ []) = if c == 32 then [] else c ∷ []
drop_space (c ∷ d ∷ s) = c ∷ drop_space (d ∷ s)

unfoldable pub collect_texts : Bytes → List Bytes → Bytes
unfolding collect_text
collect_texts result [] = result
collect_texts result (t ∷ ts) = collect_texts (collect_text result t) ts

unfoldable pub get_clean_text : List Bytes → Bytes
unfolding collect_texts drop_space
get_clean_text ts = drop_space (collect_texts [] ts)
