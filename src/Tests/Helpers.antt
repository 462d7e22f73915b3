-- ===== src/Tests/Helpers.antt =====
-- Strings, classes and hexadecimal digits.
use christians_steam_framewo.Base.{
  true, ok, ◌-◌, ◌^◌, List, Bytes, [], ◌∷◌, map, codes, ◌≡◌, ◌↔◌, ◌⊎◌, refl, arith,
}
use christians_steam_framewo.StringCompare.{lower, compare_equal, compare_equal_iff}
use christians_steam_framewo.Html.{
  check_class, get_clean_text, collect_texts, collect_text, collect_char, wants_space, drop_space,
}
use christians_steam_framewo.Html.CleanText.{Single, get_clean_text-Single}
use christians_steam_framewo.Html.Classes.{has_word, words_from, check_class_lem}
use christians_steam_framewo.HexString.{make_hex_string, from_hex_string}
use christians_steam_framewo.HexString.RoundTrip.{
  from_hex_string-make_hex_string, make_hex_string_separator,
}
use christians_steam_framewo.AssetKey.{AssetKey, unsigned, decimal, parse_number, init}
use christians_steam_framewo.AssetKey.ClassInfo.{Below, init-class_info, parse_number_iff}

compare_equal_iff_test :
    (compare_equal (codes "Domain") (codes "dOMAIN") ≡ true)
    ↔ (map lower (codes "Domain") ≡ map lower (codes "dOMAIN"))
compare_equal_iff_test = compare_equal_iff (codes "Domain") (codes "dOMAIN")

check_class_lem_example :
    check_class (codes "row Badge_Row  x") (codes "badge_row")
    ≡ ok (has_word (codes "badge_row") (words_from [] (codes "row Badge_Row  x")))
check_class_lem_example = check_class_lem (codes "row Badge_Row  x") (codes "badge_row") (
  refl,
  (
    refl,
    (
      refl,
      (
        refl,
        (
          refl,
          (
            refl,
            (refl, (refl, (refl, (refl, (refl, (refl, (refl, (refl, (refl, (refl, tt)))))))))),
          ),
        ),
      ),
    ),
  ),
)

clean_text : get_clean_text (codes "\n a " ∷ codes "\t b" ∷ codes "  " ∷ []) ≡ codes "a b"
unfolding get_clean_text collect_texts collect_text collect_char wants_space drop_space
clean_text = refl

abbrev texts : List Bytes
texts = codes "\n a " ∷ codes "\t b " ∷ []

get_clean_text-Single_example :
    Single true (get_clean_text texts)
    × ((get_clean_text texts ≡ []) ⊎ (wants_space (get_clean_text texts) ≡ true))
get_clean_text-Single_example = get_clean_text-Single texts

from_hex_string-make_hex_string_test :
    from_hex_string (make_hex_string (10 ∷ 255 ∷ []) 0) (0 ∷ 0 ∷ []) ≡ (true, 10 ∷ 255 ∷ [])
from_hex_string-make_hex_string_test =
    from_hex_string-make_hex_string (10 ∷ 255 ∷ []) (0 ∷ 0 ∷ []) (omega arith, (omega arith, tt))
      refl

make_hex_string_separator_test :
    make_hex_string (10 ∷ 255 ∷ []) b':' ≡ b':' ∷ make_hex_string (10 ∷ 255 ∷ []) 0
make_hex_string_separator_test = make_hex_string_separator 10 (255 ∷ []) b':' (λ e. cc)

abbrev no_key : AssetKey
no_key = record { app_id = 2 ^ 32 - 1; class_id = 0; instance_id = 0 }

init-class_info_example :
    init no_key (codes "classinfo/753/66/7/a:10")
    ≡ (true, record { app_id = 753; class_id = 66; instance_id = 7 }, codes "a:10")
unfolding decimal
init-class_info_example =
    init-class_info no_key (codes "753") (codes "66") (codes "7") (codes "/a:10")
      ((refl, (refl, (refl, tt))), refl, omega arith) ((refl, (refl, tt)), refl, omega arith)
      ((refl, tt), refl, omega arith) refl

parse_number_iff_example :
    (parse_number (unsigned 8) (codes "256") 1 ≡ (true, 256))
    ↔ (Below (2 ^ 8) (codes "256") × (256 ≡ decimal 0 (codes "256")))
parse_number_iff_example = parse_number_iff 8 (codes "256") 1 256
