-- ===== src/Tests/KeyValues.antt =====
-- Trees of named values.
use christians_steam_framewo.Base.{
  [], ◌∷◌, Bytes, bytes_eq, codes, some, ok, aborted, ◌>>=◌, ◌≡◌, refl, arith,
}
use christians_steam_framewo.KeyValue.{
  Node, no_children, child, string, node, find, set_value, get_value,
}
use christians_steam_framewo.KeyValue.Laws.{get_value-set_value}
use christians_steam_framewo.KeyValue.Binary.{serialize, deserialize}
use christians_steam_framewo.KeyValue.Binary.RoundTrip.{levels, deserialize-serialize}
use christians_steam_framewo.KeyValue.Binary.Siblings.{kept, behind, deserialize-serialize_siblings}
use christians_steam_framewo.KeyValue.Text.{deserialize_text}
use christians_steam_framewo.KeyValue.Text.Printed.{printed, quoted}
use christians_steam_framewo.KeyValue.Text.RoundTrip.{
  deserialize_text-printed, deserialize_text_unclosed,
}

abbrev root : Bytes
root = codes "r"

-- A string, and a node with a string.
abbrev tree : Node
tree =
    child (codes "a") (string (codes "x"))
      (child (codes "n") (node (child (codes "b") (string (codes "y")) no_children)) no_children)

deserialize-serialize_example : serialize root tree >>= deserialize ≡ ok (some (root, tree))
unfolding find bytes_eq
deserialize-serialize_example =
    deserialize-serialize root tree (omega arith, tt)
      (
        (omega arith, tt),
        (omega arith, tt),
        refl,
        ((omega arith, tt), ((omega arith, tt), (omega arith, tt), refl, tt)),
      )

-- A node, and a string behind it.
abbrev siblings : Node
siblings = child (codes "n") (node no_children) (child (codes "b") (string (codes "y")) no_children)

deserialize-serialize_siblings_example : serialize root siblings >>= deserialize ≡ aborted
unfolding find kept behind levels bytes_eq
deserialize-serialize_siblings_example =
    deserialize-serialize_siblings root siblings (omega arith, tt)
      ((omega arith, tt), tt, refl, ((omega arith, tt), (omega arith, tt), refl, tt)) (refl, tt)
      (λ e. cc)

deserialize_text-printed_example :
    deserialize_text (printed (child root (node tree) no_children) []) ≡ ok (some (root, tree))
unfolding find bytes_eq
deserialize_text-printed_example = deserialize_text-printed root tree (refl, (refl, (refl, tt), tt))

deserialize_text_unclosed_test :
    deserialize_text (b'\n' ∷ quoted root (b'\n' ∷ b'{' ∷ printed tree [])) ≡ ok (some (root, tree))
unfolding find bytes_eq
deserialize_text_unclosed_test = deserialize_text_unclosed root tree (refl, (refl, (refl, tt), tt))

get_value-set_value_test :
    get_value (codes "a") (set_value (codes "a") (codes "z") tree) ≡ ok (some (codes "z"))
unfolding bytes_eq
get_value-set_value_test = get_value-set_value (codes "a") (codes "a") (codes "z") tree
