-- ===== src/KeyValue.antt =====
-- Headers/Steam/KeyValue.hpp and Sources/Steam/KeyValue.cpp: trees of named values. A node's
-- `unordered_map` of children is the list of its entries in some iteration order; a new key goes to
-- the end, which is one order that the map allows.
pub mod Laws
pub mod Binary
pub mod Text
use christians_steam_framewo.Base.{
  ℕ, Bool, true, false, Bytes, bytes_eq, Option, none, some, Outcome, ok, aborted, ◌>>=◌,
  if◌then◌else◌, suc,
}

-- `Value<T>` for each T that the code stores, and `Node`. An integer is its bit pattern.
mutual
  pub data Item : Type 0 where
    string : Bytes → Item
    int32 : ℕ → Item
    int64 : ℕ → Item
    uint64 : ℕ → Item
    node : Node → Item

  pub data Node : Type 0 where
    no_children : Node
    child : Bytes → Item → Node → Node

-- children.find(name)
unfoldable pub find : Bytes → Node → Option Item
find name no_children = none
find name (child key item rest) = if bytes_eq key name then some item else find name rest

-- children[name]=item
unfoldable pub assign : Bytes → Item → Node → Node
assign name item no_children = child name item no_children
assign name item (child key old rest) =
    if bytes_eq key name then child key item rest else child key old (assign name item rest)

-- children.size()
unfoldable pub size : Node → ℕ
size no_children = 0
size (child key item rest) = suc (size rest)

-- The `dynamic_cast<Node*>` with the assertion behind it.
unfoldable pub as_node : Item → Outcome Node
as_node (node n) = ok n
as_node _ = aborted

unfoldable pub get_node : Bytes → Node → Outcome (Option Node)
unfolding as_node
get_node name parent = elim (find name parent) [
  | none ↦ ok none
  | some item ↦ as_node item >>= λ n. ok (some n)
]

-- The parent with its child of that name, and the child as it stands: a new one is empty.
unfoldable pub create_node : Bytes → Node → Outcome (Node × Node)
unfolding as_node
create_node name parent = elim (find name parent) [
  | none ↦ ok (assign name (node no_children) parent, no_children)
  | some item ↦ as_node item >>= λ n. ok (parent, n)
]

unfoldable pub set_value : Bytes → Bytes → Node → Node
set_value name value = assign name (string value)

-- The `dynamic_cast<Value<std::string>*>` with the assertion behind it.
unfoldable pub as_string : Item → Outcome Bytes
as_string (string s) = ok s
as_string _ = aborted

unfoldable pub get_value : Bytes → Node → Outcome (Option Bytes)
unfolding as_string
get_value name parent = elim (find name parent) [
  | none ↦ ok none
  | some item ↦ as_string item >>= λ s. ok (some s)
]
