-- ===== src/KeyValue/Binary/Encoded.antt =====
-- The bytes that the serialiser writes, with no accumulator, and one step of the deserialiser on
-- each kind of entry.
use christians_steam_framewo.Base.{
  ℕ, suc, ◌<◌, [], ◌∷◌, ◌++◌, append_assoc, append-nil, Bytes, All, ok, ◌≡◌, refl, arith,
}
use christians_steam_framewo.KeyValue.{
  Item, Node, no_children, child, string, int32, int64, uint64, node, assign,
}
use christians_steam_framewo.KeyValue.Binary.{
  serialize_item, serialize_children, serialize, push_string, push_type, get_string,
  deserialize_children,
}

-- Trees whose values are all strings: what the serialiser supports.
abbrev mutual
  pub Writable : Item → Type 0
  Writable (string s) = Unit
  Writable (node n) = AllWritable n
  Writable _ = ⊥

  pub AllWritable : Node → Type 0
  AllWritable no_children = Unit
  AllWritable (child k item n) = Writable item × AllWritable n

unfoldable mutual
  pub encoded_item : Bytes → Item → Bytes
  encoded_item k (string s) = 1 ∷ (k ++ 0 ∷ (s ++ 0 ∷ []))
  encoded_item k (node n) = 0 ∷ (k ++ 0 ∷ (encoded n ++ 8 ∷ 8 ∷ []))
  encoded_item k _ = []

  pub encoded : Node → Bytes
  encoded no_children = []
  encoded (child k item n) = encoded_item k item ++ encoded n

mutual
  unfolding serialize_item encoded_item push_string push_type

  serialize_item-encoded :
      (k : Bytes) (item : Item) (out : Bytes)
      → Writable item
      → serialize_item k item out ≡ ok (out ++ encoded_item k item)
  serialize_item-encoded k (string s) out w = simp append_assoc
  serialize_item-encoded k (int32 n) out w = absurd w
  serialize_item-encoded k (int64 n) out w = absurd w
  serialize_item-encoded k (uint64 n) out w = absurd w
  serialize_item-encoded k (node n) out w =
      rw (serialize_children-encoded n (((out ++ 0 ∷ []) ++ k) ++ 0 ∷ []) w) (simp append_assoc)

  serialize_children-encoded :
      (n : Node) (out : Bytes) → AllWritable n → serialize_children n out ≡ ok (out ++ encoded n)
  serialize_children-encoded no_children out w = rw append-nil
  serialize_children-encoded (child k item n) out w =
      rw (serialize_item-encoded k item out w.0)
        (rw (serialize_children-encoded n (out ++ encoded_item k item) w.1) (simp append_assoc))

pub serialize-encoded :
    (k : Bytes) (n : Node) → AllWritable n → serialize k n ≡ ok (encoded_item k (node n))
unfolding serialize
serialize-encoded k n w = serialize_item-encoded k (node n) [] w

-- Text with no zero byte, which a terminator can end.
abbrev pub IsClean : Bytes → Type 0
IsClean = All (λ b. 0 < b)

pub get_string-append : (s rest : Bytes) → IsClean s → get_string (s ++ 0 ∷ rest) ≡ ok (s, rest)
unfolding get_string
get_string-append [] rest h = refl
get_string-append (c ∷ s) rest h = ground (arith, get_string-append s rest h.1)

-- One round of the loop on a string, a node and an end marker.
pub deserialize_children_string :
    (f : ℕ) (k s rest : Bytes) (acc : Node)
    → IsClean k
    → IsClean s
    → deserialize_children (suc f) (1 ∷ (k ++ 0 ∷ (s ++ 0 ∷ rest))) acc
      ≡ deserialize_children f rest (assign k (string s) acc)
unfolding deserialize_children
deserialize_children_string f k s rest acc hk hs =
    rw (get_string-append k (s ++ 0 ∷ rest) hk) (rw (get_string-append s rest hs))

pub deserialize_children_node :
    (f : ℕ) (k rest rest' : Bytes) (acc n : Node)
    → IsClean k
    → deserialize_children f rest no_children ≡ ok (n, rest')
    → deserialize_children (suc f) (0 ∷ (k ++ 0 ∷ rest)) acc
      ≡ deserialize_children f rest' (assign k (node n) acc)
unfolding deserialize_children
deserialize_children_node f k rest rest' acc n hk h = rw (get_string-append k rest hk) (rw h)

pub deserialize_children_end :
    (f : ℕ) (rest : Bytes) (acc : Node)
    → deserialize_children (suc f) (8 ∷ rest) acc ≡ ok (acc, rest)
unfolding deserialize_children
deserialize_children_end f rest acc = refl
