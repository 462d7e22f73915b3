-- ===== src/KeyValue/Text.antt =====
-- Sources/Steam/KeyValue_Deserialize_Text.cpp: the text form of a tree. The tokenizer's state is
-- the text that is left, and a string token carries its value.
pub mod Printed
pub mod Total
pub mod RoundTrip
use christians_steam_framewo.Base.{
  ℕ, zero, suc, ◌+◌, Bool, true, false, ◌||◌, List, [], ◌∷◌, Bytes, Option, none, some, Outcome, ok,
  threw, aborted, out_of_fuel, ◌>>=◌, Exception, syntax_error, if◌then◌else◌, ◌==◌, ltb, length,
}
use christians_steam_framewo.KeyValue.{
  Item, Node, no_children, child, string, node, assign, create_node, set_value,
}
use christians_steam_framewo.KeyValue.Binary.{take_root, caught}

pub data Token : Type 0 where
  end_token open_bracket close_bracket : Token
  string_token : Bytes → Token

abbrev pub is_space : ℕ → Bool
is_space c = c == b' ' || c == b'\t' || c == b'\n' || c == b'\r'

unfoldable pub skip_whitespace : Bytes → Bytes
skip_whitespace [] = []
skip_whitespace (c ∷ text) = if is_space c then skip_whitespace text else c ∷ text

abbrev pub prefixed : ℕ → Outcome (Bytes × Bytes) → Outcome (Bytes × Bytes)
prefixed c r = r >>= λ (value, text). ok (c ∷ value, text)

-- The loop behind an opening quote; a backslash takes the next character as it stands.
unfoldable pub read_quoted : Bytes → Outcome (Bytes × Bytes)
read_quoted [] = threw syntax_error
read_quoted (c ∷ []) = if c == b'"' then ok ([], []) else threw syntax_error
read_quoted (c ∷ d ∷ text) =
    let escaped = prefixed d (read_quoted text) in
    let plain = prefixed c (read_quoted (d ∷ text)) in
    if c == b'"' then ok ([], d ∷ text) else if c == b'\\' then escaped else plain

unfoldable pub first_token : Bytes → Outcome (Token × Bytes)
unfolding read_quoted
first_token [] = ok (end_token, [])
first_token (c ∷ text) =
    if c == b'{'
    then ok (open_bracket, text)
    else if c == b'}'
    then ok (close_bracket, text)
    else if c == b'"'
    then (read_quoted text >>= λ (value, text'). ok (string_token value, text'))
    else threw syntax_error

-- Tokenizer::operator()
unfoldable pub next_token : Bytes → Outcome (Token × Bytes)
unfolding skip_whitespace first_token
next_token text = first_token (skip_whitespace text)

abbrev pub Parse : Type 0
Parse = ℕ → Bytes → Node → Outcome (Node × Bytes)

-- The inner `switch`, on the token behind a name. The first argument is the recursive call.
unfoldable pub parse_value : Parse → ℕ → Bytes → Token → Bytes → Node → Outcome (Node × Bytes)
unfolding set_value create_node assign
parse_value recurse depth name (string_token value) text parent =
    recurse depth text (set_value name value parent)
parse_value recurse depth name open_bracket text parent = do
  (parent', old) ← create_node name parent
  (new, text') ← recurse (depth + 1) text old
  recurse depth text' (assign name (node new) parent')
parse_value recurse depth name _ text parent = threw syntax_error

-- The outer `switch`. To return from it, or to leave the loop, is to end this call of `parse`.
unfoldable pub parse_token : Parse → ℕ → Token → Bytes → Node → Outcome (Node × Bytes)
unfolding next_token parse_value
parse_token recurse depth end_token text parent = ok (parent, text)
parse_token recurse depth close_bracket text parent =
    if ltb 0 depth then ok (parent, text) else threw syntax_error
parse_token recurse depth open_bracket text parent = threw syntax_error
parse_token recurse depth (string_token name) text parent = do
  (token, text') ← next_token text
  parse_value recurse depth name token text' parent

-- Deserializer::parse at a depth. Fuel above the length of the text is enough.
unfoldable pub parse : ℕ → Parse
unfolding next_token parse_token
parse zero depth text parent = out_of_fuel
parse (suc f) depth text parent = do
  (token, text') ← next_token text
  parse_token (parse f) depth token text' parent

-- Steam::KeyValue::deserialize on a text.
unfoldable pub deserialize_text : Bytes → Outcome (Option (Bytes × Node))
unfolding parse take_root caught
deserialize_text text =
    caught do (fake, rest) ← parse (suc (length text)) 0 text no_children; take_root fake
