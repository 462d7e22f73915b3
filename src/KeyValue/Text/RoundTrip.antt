-- ===== src/KeyValue/Text/RoundTrip.antt =====
-- Reading back a printed tree.
use christians_steam_framewo.Base.{
  ℕ, zero, suc, ◌+◌, ◌<◌, ◌≤◌, [], ◌∷◌, Bytes, none, some, ok, ◌≡◌, refl, ◌∙◌, arith, lt→ltb,
  length,
}
use christians_steam_framewo.KeyValue.{
  Item, Node, no_children, child, string, int32, int64, uint64, node, find, assign, create_node,
}
use christians_steam_framewo.KeyValue.Laws.{
  append, append-no_children, append_assoc, assign_new, assign-assign, Apart, Apart-no_children,
  Apart-assign,
}
use christians_steam_framewo.KeyValue.Text.{parse, string_token, next_token, deserialize_text}
use christians_steam_framewo.KeyValue.Text.Printed.{escaped, quoted, printed, next_token-quoted}

-- String values and nodes, whose keys differ within each node.
abbrev pub Distinct : Node → Type 0
Distinct no_children = Unit
Distinct (child k (string s) n) = (find k n ≡ none) × Distinct n
Distinct (child k (node c) n) = (find k n ≡ none) × Distinct c × Distinct n
Distinct (child k _ n) = ⊥

length-escaped : (s rest : Bytes) → length rest ≤ length (escaped s rest)
unfolding escaped
length-escaped [] rest = omega arith
length-escaped (c ∷ s) rest = ground (arith, length-escaped s rest)

length-quoted : (s rest : Bytes) → length rest < length (quoted s rest)
unfolding quoted
length-quoted s rest = omega (arith, length-escaped s (b'"' ∷ rest))

length-printed : (n : Node) (rest : Bytes) → length rest ≤ length (printed n rest)
unfolding printed
length-printed no_children rest = omega arith
length-printed (child k (string s) n) rest = omega (
  arith,
  length-quoted k (b' ' ∷ quoted s (printed n rest)),
  length-quoted s (printed n rest),
  length-printed n rest,
)
length-printed (child k (node c) n) rest = omega (
  arith,
  length-quoted k (b'\n' ∷ b'{' ∷ printed c (b'\n' ∷ b'}' ∷ printed n rest)),
  length-printed c (b'\n' ∷ b'}' ∷ printed n rest),
  length-printed n rest,
)
length-printed (child k (int32 x) n) rest = length-printed n rest
length-printed (child k (int64 x) n) rest = length-printed n rest
length-printed (child k (uint64 x) n) rest = length-printed n rest

next_token_line : (s rest : Bytes) → next_token (b'\n' ∷ quoted s rest) ≡ ok (string_token s, rest)
unfolding next_token
next_token_line s rest = next_token-quoted s rest

next_token_blank : (s rest : Bytes) → next_token (b' ' ∷ quoted s rest) ≡ ok (string_token s, rest)
unfolding next_token
next_token_blank s rest = next_token-quoted s rest

-- One round of the loop on a value.
parse_string :
    (f d : ℕ) (k s rest : Bytes) (acc : Node)
    → parse (suc f) d (b'\n' ∷ quoted k (b' ' ∷ quoted s rest)) acc
      ≡ parse f d rest (assign k (string s) acc)
unfolding parse
parse_string f d k s rest acc =
    rw (next_token_line k (b' ' ∷ quoted s rest)) (rw (next_token_blank s rest))

-- One round of the loop on a new node.
parse_node :
    (f d : ℕ) (k rest rest' : Bytes) (acc c : Node)
    → find k acc ≡ none
    → parse f (d + 1) rest no_children ≡ ok (c, rest')
    → parse (suc f) d (b'\n' ∷ quoted k (b'\n' ∷ b'{' ∷ rest)) acc
      ≡ parse f d rest' (assign k (node c) acc)
unfolding parse
parse_node f d k rest rest' acc c new h =
    rw (next_token_line k (b'\n' ∷ b'{' ∷ rest))
      (rw (new, create_node) (rw h (rw (assign-assign k (node c) (node no_children) acc))))

-- What stands behind the printed entries ends the call of `parse`, and leaves `r'`.
abbrev Stops : ℕ → Bytes → Bytes → Type 0
Stops d r r' = (g : ℕ) (m : Node) → parse (suc g) d r m ≡ ok (m, r')

Stops-bracket : (d : ℕ) (rest : Bytes) → Stops (d + 1) (b'\n' ∷ b'}' ∷ rest) rest
unfolding parse
Stops-bracket d rest g m = rw (lt→ltb 0 (d + 1) (omega arith))

append-assign :
    (acc n : Node) (k : Bytes) (item : Item)
    → find k acc ≡ none
    → append (assign k item acc) n ≡ append acc (child k item n)
unfolding append
append-assign acc n k item h =
    rw (assign_new k item acc h) (append_assoc acc (child k item no_children) n)

parse-printed :
    (n : Node) (f d : ℕ) (acc : Node) (r r' : Bytes)
    → Distinct n
    → Apart acc n
    → length (printed n r) < f
    → Stops d r r'
    → parse f d (printed n r) acc ≡ ok (append acc n, r')
unfolding printed append
parse-printed n zero d acc r r' u a l stop = absurd (omega arith)
parse-printed no_children (suc f) d acc r r' u a l stop = rw (append-no_children acc) (stop f acc)
parse-printed (child k (string s) n) (suc f) d acc r r' u a l stop =
    parse_string f d k s (printed n r) acc
    ∙ parse-printed n f d (assign k (string s) acc) r r' u.1
        (Apart-assign acc n k (string s) a.1 u.0)
        (omega
          (arith, length-quoted k (b' ' ∷ quoted s (printed n r)), length-quoted s (printed n r)))
        stop
    ∙ rw (append-assign acc n k (string s) a.0)
parse-printed (child k (node c) n) (suc f) d acc r r' u a l stop =
    let close = b'\n' ∷ b'}' ∷ printed n r in
    let shorter = length-quoted k (b'\n' ∷ b'{' ∷ printed c close) in
    let inner =
      parse-printed c f (d + 1) no_children close (printed n r) u.1 (Apart-no_children c)
        (omega (arith, shorter)) (Stops-bracket d (printed n r)) in
    parse_node f d k (printed c close) (printed n r) acc c a.0 inner
    ∙ parse-printed n f d (assign k (node c) acc) r r' u.2 (Apart-assign acc n k (node c) a.1 u.0)
        (omega (arith, shorter, length-printed c close)) stop
    ∙ rw (append-assign acc n k (node c) a.0)
parse-printed (child k (int32 x) n) (suc f) d acc r r' u a l stop = absurd u
parse-printed (child k (int64 x) n) (suc f) d acc r r' u a l stop = absurd u
parse-printed (child k (uint64 x) n) (suc f) d acc r r' u a l stop = absurd u

Stops-end : (d : ℕ) → Stops d [] []
unfolding parse
Stops-end d g m = refl

-- A tree of strings and nodes whose keys differ within each node is read back from its printed
-- form as it was, under its name, whatever quotes and backslashes its texts hold.
pub deserialize_text-printed :
    (name : Bytes) (n : Node)
    → Distinct n
    → deserialize_text (printed (child name (node n) no_children) []) ≡ ok (some (name, n))
unfolding deserialize_text find append
deserialize_text-printed name n u =
    let root = child name (node n) no_children in
    rw (
      parse-printed root (suc (length (printed root []))) 0 no_children [] [] (refl, u, tt)
        (refl, tt) (omega arith) (Stops-end 0))

unclosed :
    (name : Bytes) (n : Node) (f : ℕ)
    → Distinct n
    → length (printed n []) < f
    → parse (suc (suc f)) 0 (b'\n' ∷ quoted name (b'\n' ∷ b'{' ∷ printed n [])) no_children
      ≡ ok (child name (node n) no_children, [])
unfolding assign find append
unclosed name n f u l =
    parse_node (suc f) 0 name (printed n []) [] no_children n refl (
      parse-printed n (suc f) 1 no_children [] [] u (Apart-no_children n) (omega arith)
        (Stops-end 1))
    ∙ Stops-end 0 f _

-- The closing bracket may be missing: the text without it gives the same tree.
pub deserialize_text_unclosed :
    (name : Bytes) (n : Node)
    → Distinct n
    → deserialize_text (b'\n' ∷ quoted name (b'\n' ∷ b'{' ∷ printed n [])) ≡ ok (some (name, n))
unfolding deserialize_text quoted
deserialize_text_unclosed name n u =
    let shorter = length-escaped name (b'"' ∷ b'\n' ∷ b'{' ∷ printed n []) in
    rw (
      unclosed name n (suc (length (escaped name (b'"' ∷ b'\n' ∷ b'{' ∷ printed n [])))) u
        (omega (arith, shorter)))
