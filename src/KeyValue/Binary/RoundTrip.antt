-- ===== src/KeyValue/Binary/RoundTrip.antt =====
-- Reading back what the serialiser wrote. It writes two end markers behind each node and the
-- deserialiser takes one, so each node hands a marker on to the node around it.
use christians_steam_framewo.Base.{
  ℕ, zero, suc, ◌<◌, [], ◌∷◌, ◌++◌, append_assoc, append-nil, Bytes, none, some, ok, ◌>>=◌, ◌≡◌,
  refl, subst, ◌∙◌, ap, arith, length, length-append,
}
use christians_steam_framewo.KeyValue.{
  Item, Node, no_children, child, string, int32, int64, uint64, node, find, assign,
}
use christians_steam_framewo.KeyValue.Laws.{
  append, append-no_children, assign_new, Apart, Apart-no_children, Apart-assign,
}
use christians_steam_framewo.KeyValue.Laws as Laws
use christians_steam_framewo.KeyValue.Binary.{serialize, deserialize, deserialize_children}
use christians_steam_framewo.KeyValue.Binary.Encoded.{
  AllWritable, encoded, encoded_item, serialize-encoded, IsClean, deserialize_children_string,
  deserialize_children_node, deserialize_children_end,
}

-- String values with distinct keys, and a node at most as the last entry; no zero byte in a text.
abbrev pub Readable : Node → Type 0
Readable no_children = Unit
Readable (child k (string s) n) = IsClean k × IsClean s × (find k n ≡ none) × Readable n
Readable (child k (node c) no_children) = IsClean k × Readable c
Readable (child k _ n) = ⊥

unfoldable pub levels : Node → ℕ
levels no_children = 0
levels (child k (node c) no_children) = suc (levels c)
levels (child k _ n) = levels n

-- End markers in front of other bytes.
abbrev pub markers : ℕ → Bytes → Bytes
markers zero r = r
markers (suc n) r = 8 ∷ markers n r

markers-cons : (n : ℕ) (r : Bytes) → markers n (8 ∷ r) ≡ 8 ∷ markers n r
markers-cons zero r = refl
markers-cons (suc n) r = ap (◌∷◌ 8) (markers-cons n r)

pub Readable-AllWritable : (n : Node) → Readable n → AllWritable n
Readable-AllWritable no_children h = tt
Readable-AllWritable (child k (string s) n) h = (tt, Readable-AllWritable n h.3)
Readable-AllWritable (child k (node c) no_children) h = (Readable-AllWritable c h.1, tt)
Readable-AllWritable (child k (node c) (child _ _ _)) h = absurd h
Readable-AllWritable (child k (int32 x) n) h = absurd h
Readable-AllWritable (child k (int64 x) n) h = absurd h
Readable-AllWritable (child k (uint64 x) n) h = absurd h

pub string_shape :
    (k s t u : Bytes)
    → (1 ∷ (k ++ 0 ∷ (s ++ 0 ∷ [])) ++ t) ++ u ≡ 1 ∷ (k ++ 0 ∷ (s ++ 0 ∷ (t ++ u)))
string_shape k s t u = simp append_assoc

node_shape :
    (k e u : Bytes)
    → ((0 ∷ (k ++ 0 ∷ (e ++ 8 ∷ 8 ∷ []))) ++ []) ++ u ≡ 0 ∷ (k ++ 0 ∷ (e ++ 8 ∷ 8 ∷ u))
node_shape k e u = simp (append_assoc, append-nil)

pub append-assign :
    (acc n : Node) (k : Bytes) (item : Item)
    → find k acc ≡ none
    → append (assign k item acc) n ≡ append acc (child k item n)
unfolding append
append-assign acc n k item h =
    rw (assign_new k item acc h) (Laws.append_assoc acc (child k item no_children) n)

pub string_length :
    (k s u : Bytes) (f : ℕ) → length (1 ∷ (k ++ 0 ∷ (s ++ 0 ∷ u))) < suc f → length u < f
string_length k s u f h = omega (arith, length-append k (0 ∷ (s ++ 0 ∷ u)), length-append s (0 ∷ u))

pub node_length : (k u : Bytes) (f : ℕ) → length (0 ∷ (k ++ 0 ∷ u)) < suc f → length u < f
node_length k u f h = omega (arith, length-append k (0 ∷ u))

pub read_encoded :
    (n : Node) (f : ℕ) (acc : Node) (r : Bytes)
    → Readable n
    → Apart acc n
    → length (encoded n ++ 8 ∷ 8 ∷ r) < f
    → deserialize_children f (encoded n ++ 8 ∷ 8 ∷ r) acc
      ≡ ok (append acc n, markers (levels n) (8 ∷ r))
unfolding encoded levels append
read_encoded n zero acc r h a l = absurd (omega arith)
read_encoded no_children (suc f) acc r h a l =
    rw (append-no_children acc) (deserialize_children_end f (8 ∷ r) acc)
read_encoded (child k (string s) n) (suc f) acc r h a l =
    let e = string_shape k s (encoded n) (8 ∷ 8 ∷ r) in
    rw e (
      deserialize_children_string f k s (encoded n ++ 8 ∷ 8 ∷ r) acc h.0 h.1
      ∙ read_encoded n f (assign k (string s) acc) r h.3 (Apart-assign acc n k (string s) a.1 h.2)
          (string_length k s _ f (subst (λ b. length b < suc f) e l))
      ∙ rw (append-assign acc n k (string s) a.0))
read_encoded (child k (node c) no_children) (suc zero) acc r h a l = absurd (
    omega (
      arith,
      node_length k _ zero (subst (λ b. length b < 1) (node_shape k (encoded c) (8 ∷ 8 ∷ r)) l),
    ))
read_encoded (child k (node c) no_children) (suc (suc f)) acc r h a l =
    let e = node_shape k (encoded c) (8 ∷ 8 ∷ r) in
    let inner =
      read_encoded c (suc f) no_children (8 ∷ 8 ∷ r) h.1 (Apart-no_children c)
        (node_length k _ (suc f) (subst (λ b. length b < suc (suc f)) e l)) in
    rw e (
      deserialize_children_node (suc f) k _ _ acc c h.0 inner
      ∙ rw (markers-cons (levels c) (8 ∷ 8 ∷ r)) (
          deserialize_children_end f _ _
          ∙ rw (assign_new k (node c) acc a.0, markers-cons (levels c) (8 ∷ r))))
read_encoded (child k (node c) (child _ _ _)) (suc f) acc r h a l = absurd h
read_encoded (child k (int32 x) n) (suc f) acc r h a l = absurd h
read_encoded (child k (int64 x) n) (suc f) acc r h a l = absurd h
read_encoded (child k (uint64 x) n) (suc f) acc r h a l = absurd h

read_root :
    (name : Bytes) (n : Node) (f : ℕ)
    → IsClean name
    → Readable n
    → length (encoded_item name (node n)) < f
    → deserialize_children f (encoded_item name (node n)) no_children
      ≡ ok (child name (node n) no_children, markers (levels n) [])
unfolding encoded assign append
read_root name n zero hn h l = absurd (omega arith)
read_root name n (suc zero) hn h l = absurd (omega arith)
read_root name n (suc (suc f)) hn h l =
    let inner =
      read_encoded n (suc f) no_children [] h (Apart-no_children n)
        (node_length name _ (suc f) l) in
    deserialize_children_node (suc f) name _ _ no_children n hn inner
    ∙ rw (markers-cons (levels n) []) (deserialize_children_end f _ _)

-- A tree of string values whose keys differ within each node, with a node at most as the last
-- entry of a node, and with no zero byte in any text, is read back as it was, under its name.
pub deserialize-serialize :
    (name : Bytes) (n : Node)
    → IsClean name
    → Readable n
    → serialize name n >>= deserialize ≡ ok (some (name, n))
unfolding deserialize
deserialize-serialize name n hn h =
    let wire = encoded_item name (node n) in
    rw (serialize-encoded name n (Readable-AllWritable n h))
      (rw (read_root name n (suc (length wire)) hn h (omega arith)))
