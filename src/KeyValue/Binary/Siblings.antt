-- ===== src/KeyValue/Binary/Siblings.antt =====
-- What the second end marker does to the entries behind a node: the deserialiser takes it for the
-- end of the parent, and reads those entries as children of `fake`.
use christians_steam_framewo.Base.{
  ℕ, zero, suc, ◌<◌, ◌≤◌, [], ◌∷◌, ◌++◌, append_assoc, Bytes, none, ok, aborted, ◌>>=◌, ◌≡◌, ◌≢◌,
  refl, subst, ◌∙◌, arith, length, length-append,
}
use christians_steam_framewo.KeyValue.{
  Item, Node, no_children, child, string, int32, int64, uint64, node, find, assign,
}
use christians_steam_framewo.KeyValue.Laws.{
  append, assign_new, Apart, Apart-no_children, Apart-assign,
}
use christians_steam_framewo.KeyValue.Binary.{
  serialize, deserialize, deserialize_children, take_root, caught,
}
use christians_steam_framewo.KeyValue.Binary.Encoded.{
  AllWritable, encoded, encoded_item, serialize-encoded, IsClean, deserialize_children_string,
  deserialize_children_node, deserialize_children_end,
}
use christians_steam_framewo.KeyValue.Binary.RoundTrip.{
  Readable, levels, Readable-AllWritable, string_shape, append-assign, string_length, node_length,
  read_encoded,
}

-- The entries up to the first node, and those behind it.
unfoldable pub kept : Node → Node
kept no_children = no_children
kept (child k (node c) n) = child k (node c) no_children
kept (child k item n) = child k item (kept n)

unfoldable pub behind : Node → Node
behind no_children = no_children
behind (child k (node c) n) = n
behind (child k item n) = behind n

-- Strings, a node with no node in it, and then entries that would be readable by themselves.
abbrev pub HasSiblings : Node → Type 0
HasSiblings (child k (string s) n) = IsClean k × IsClean s × (find k n ≡ none) × HasSiblings n
HasSiblings (child k (node c) n) = IsClean k × Readable c × (levels c ≡ 0) × Readable n
HasSiblings _ = ⊥

HasSiblings-AllWritable : (n : Node) → HasSiblings n → AllWritable n
HasSiblings-AllWritable no_children h = absurd h
HasSiblings-AllWritable (child k (string s) n) h = (tt, HasSiblings-AllWritable n h.3)
HasSiblings-AllWritable (child k (node c) n) h =
    (Readable-AllWritable c h.1, Readable-AllWritable n h.3)
HasSiblings-AllWritable (child k (int32 x) n) h = absurd h
HasSiblings-AllWritable (child k (int64 x) n) h = absurd h
HasSiblings-AllWritable (child k (uint64 x) n) h = absurd h

sibling_shape :
    (k e t u : Bytes)
    → (0 ∷ (k ++ 0 ∷ (e ++ 8 ∷ 8 ∷ [])) ++ t) ++ u ≡ 0 ∷ (k ++ 0 ∷ (e ++ 8 ∷ 8 ∷ (t ++ u)))
sibling_shape k e t u = simp append_assoc

read_siblings :
    (n : Node) (f : ℕ) (acc : Node) (r : Bytes)
    → HasSiblings n
    → Apart acc n
    → length (encoded n ++ 8 ∷ 8 ∷ r) < f
    → deserialize_children f (encoded n ++ 8 ∷ 8 ∷ r) acc
      ≡ ok (append acc (kept n), encoded (behind n) ++ 8 ∷ 8 ∷ r)
unfolding encoded levels append kept behind
read_siblings n zero acc r h a l = absurd (omega arith)
read_siblings no_children (suc f) acc r h a l = absurd h
read_siblings (child k (string s) n) (suc f) acc r h a l =
    let e = string_shape k s (encoded n) (8 ∷ 8 ∷ r) in
    rw e (
      deserialize_children_string f k s (encoded n ++ 8 ∷ 8 ∷ r) acc h.0 h.1
      ∙ read_siblings n f (assign k (string s) acc) r h.3 (Apart-assign acc n k (string s) a.1 h.2)
          (string_length k s _ f (subst (λ b. length b < suc f) e l))
      ∙ rw (append-assign acc (kept n) k (string s) a.0))
read_siblings (child k (node c) n) (suc zero) acc r h a l =
    let e = sibling_shape k (encoded c) (encoded n) (8 ∷ 8 ∷ r) in
    absurd (omega (arith, node_length k _ zero (subst (λ b. length b < 1) e l)))
read_siblings (child k (node c) n) (suc (suc f)) acc r h a l =
    let e = sibling_shape k (encoded c) (encoded n) (8 ∷ 8 ∷ r) in
    let inner =
      read_encoded c (suc f) no_children (encoded n ++ 8 ∷ 8 ∷ r) h.1 (Apart-no_children c)
        (node_length k _ (suc f) (subst (λ b. length b < suc (suc f)) e l)) in
    rw e (
      deserialize_children_node (suc f) k _ _ acc c h.0 inner
      ∙ rw h.2 (deserialize_children_end f _ _ ∙ rw (assign_new k (node c) acc a.0)))
read_siblings (child k (int32 x) n) (suc f) acc r h a l = absurd h
read_siblings (child k (int64 x) n) (suc f) acc r h a l = absurd h
read_siblings (child k (uint64 x) n) (suc f) acc r h a l = absurd h

behind-Readable : (n : Node) → HasSiblings n → Readable (behind n)
unfolding behind
behind-Readable no_children h = absurd h
behind-Readable (child k (string s) n) h = behind-Readable n h.3
behind-Readable (child k (node c) n) h = h.3
behind-Readable (child k (int32 x) n) h = absurd h
behind-Readable (child k (int64 x) n) h = absurd h
behind-Readable (child k (uint64 x) n) h = absurd h

length-behind : (n : Node) → length (encoded (behind n)) ≤ length (encoded n)
unfolding behind encoded
length-behind no_children = omega arith
length-behind (child k (node c) n) =
    omega (arith, length-append (encoded_item k (node c)) (encoded n))
length-behind (child k (string s) n) =
    omega (arith, length-append (encoded_item k (string s)) (encoded n), length-behind n)
length-behind (child k (int32 x) n) = length-behind n
length-behind (child k (int64 x) n) = length-behind n
length-behind (child k (uint64 x) n) = length-behind n

read_root_siblings :
    (name : Bytes) (n : Node) (f : ℕ)
    → IsClean name
    → HasSiblings n
    → Apart (child name (node (kept n)) no_children) (behind n)
    → length (encoded_item name (node n)) < f
    → (rest : Bytes) × (deserialize_children f (encoded_item name (node n)) no_children
        ≡ ok (child name (node (kept n)) (behind n), rest))
unfolding encoded append assign
read_root_siblings name n zero hn h a l = absurd (omega arith)
read_root_siblings name n (suc zero) hn h a l = absurd (omega arith)
read_root_siblings name n (suc (suc f)) hn h a l =
    let short = node_length name (encoded n ++ 8 ∷ 8 ∷ []) (suc f) l in
    let root = child name (node (kept n)) no_children in
    (
      _,
      deserialize_children_node (suc f) name _ _ no_children _ hn
            (read_siblings n (suc f) no_children [] h (Apart-no_children n) short)
          ∙ read_encoded (behind n) (suc f) root [] (behind-Readable n h) a (
              omega (
                arith,
                length-behind n,
                length-append (encoded n) (8 ∷ 8 ∷ []),
                length-append (encoded (behind n)) (8 ∷ 8 ∷ []),
              )),
    )

take_root_siblings :
    (name : Bytes) (item : Item) (n : Node)
    → n ≢ no_children
    → take_root (child name item n) ≡ aborted
unfolding take_root
take_root_siblings name item no_children h = absurd (h refl)
take_root_siblings name item (child _ _ _) h = refl

-- In a tree of strings and nodes, whose keys and strings hold no zero byte, let a node that holds no
-- node stand behind strings, and entries behind it, in each of which and within each node there is a
-- node at most as the last entry, and keys differ. If the keys of the entries behind it also differ
-- from the root's name, then reading back what the serializer wrote fails the assertion that it has
-- one root.
pub deserialize-serialize_siblings :
    (name : Bytes) (n : Node)
    → IsClean name
    → HasSiblings n
    → Apart (child name (node (kept n)) no_children) (behind n)
    → behind n ≢ no_children
    → serialize name n >>= deserialize ≡ aborted
unfolding deserialize caught
deserialize-serialize_siblings name n hn h a ne =
    let wire = encoded_item name (node n) in
    let read = read_root_siblings name n (suc (length wire)) hn h a (omega arith) in
    rw (serialize-encoded name n (HasSiblings-AllWritable n h))
      (rw read.1 (rw (take_root_siblings name (node (kept n)) (behind n) ne)))
