-- ===== src/KeyValue/Laws.antt =====
-- The map of a node: look-ups after a write, and writes of new keys.
use christians_steam_framewo.Base.{
  Bytes, bytes_eq, bytes_eq_iff, bytes_eq_self, bytes_eq_ne, none, some, ◌≡◌, ◌≢◌, refl, sym, ap,
  arith, if◌then◌else◌, Bool-cases, inl, inr, ok,
}
use christians_steam_framewo.KeyValue.{
  Item, Node, no_children, child, string, node, find, assign, get_node, create_node, as_node,
  set_value, get_value,
}

-- Looking up after a write.
pub find-assign :
    (k name : Bytes) (item : Item) (n : Node)
    → find k (assign name item n) ≡ (if bytes_eq name k then some item else find k n)
unfolding find assign
find-assign k name item no_children = refl
find-assign k name item (child key old rest) = ground (
  arith,
  bytes_eq_iff key name,
  bytes_eq_iff name k,
  bytes_eq_iff key k,
  find-assign k name item rest,
)

-- `n` with the entries of `m` behind it.
unfoldable pub append : Node → Node → Node
append no_children m = m
append (child k item n) m = child k item (append n m)

pub append_assoc : (a b c : Node) → append (append a b) c ≡ append a (append b c)
unfolding append
append_assoc no_children b c = refl
append_assoc (child k item a) b c = ap (child k item) (append_assoc a b c)

pub append-no_children : (a : Node) → append a no_children ≡ a
unfolding append
append-no_children no_children = refl
append-no_children (child k item a) = ap (child k item) (append-no_children a)

-- A new key goes to the end.
pub assign_new :
    (k : Bytes) (item : Item) (n : Node)
    → find k n ≡ none
    → assign k item n ≡ append n (child k item no_children)
unfolding find assign append
assign_new k item no_children h = refl
assign_new k item (child key old rest) h = ground (arith, assign_new k item rest)

-- No key of the second node is one of the first.
abbrev pub Apart : Node → Node → Type 0
Apart acc no_children = Unit
Apart acc (child k item n) = (find k acc ≡ none) × Apart acc n

pub Apart-no_children : (n : Node) → Apart no_children n
unfolding find
Apart-no_children no_children = tt
Apart-no_children (child k item n) = (refl, Apart-no_children n)

pub Apart-assign :
    (acc n : Node) (k : Bytes) (item : Item)
    → Apart acc n
    → find k n ≡ none
    → Apart (assign k item acc) n
unfolding find
Apart-assign acc no_children k item a h = tt
Apart-assign acc (child j i n) k item a h = (
  ground (arith, find-assign j k item acc, bytes_eq_iff j k, bytes_eq_iff k j, a.0),
  Apart-assign acc n k item a.1 (ground arith),
)

-- The last write to a key counts.
pub assign-assign : (k : Bytes) (x y : Item) (n : Node) → assign k x (assign k y n) ≡ assign k x n
unfolding assign
assign-assign k x y no_children = rw (bytes_eq_self k)
assign-assign k x y (child key old rest) = elim (Bool-cases (bytes_eq key k)) [
  | inl e ↦ rw e (rw e)
  | inr e ↦ rw e (rw e (ap (child key old) (assign-assign k x y rest)))
]

-- A value that was set is the value found, and other keys keep what they had.
pub get_value-set_value :
    (k name value : Bytes) (n : Node)
    → get_value k (set_value name value n)
      ≡ (if bytes_eq name k then ok (some value) else get_value k n)
unfolding get_value set_value
get_value-set_value k name value n = ground (arith, find-assign k name (string value) n)

-- A node that was created is found under its name, it is the one handed out, and creating it again
-- changes nothing; other keys keep what they had.
pub get_node-create_node :
    (name : Bytes) (n parent c : Node)
    → create_node name n ≡ ok (parent, c)
    → (get_node name parent ≡ ok (some c))
      × (create_node name parent ≡ ok (parent, c))
      × ((k : Bytes) → k ≢ name → find k parent ≡ find k n)
unfolding get_node create_node as_node
get_node-create_node name n parent c h = (
  ground (arith, find-assign name name (node no_children) n, bytes_eq_self name),
  ground (arith, find-assign name name (node no_children) n, bytes_eq_self name),
  λ k ne.
      ground (arith, find-assign k name (node no_children) n, bytes_eq_ne name k (λ e. ne (sym e))),
)
