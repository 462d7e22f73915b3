-- ===== src/KeyValue/Text/Printed.antt =====
-- A printed form of a tree, and the tokens that the tokenizer reads off it.
use christians_steam_framewo.Base.{
  ℕ, false, ◌||◌, [], ◌∷◌, Bytes, ok, ◌≡◌, refl, ◌∙◌, arith, if◌then◌else◌, ◌==◌, Bool-cases, inl,
  inr,
}
use christians_steam_framewo.KeyValue.{Node, no_children, child, string, node}
use christians_steam_framewo.KeyValue.Text.{string_token, read_quoted, prefixed, next_token}

-- Quotes and backslashes get a backslash.
unfoldable pub escaped : Bytes → Bytes → Bytes
escaped [] rest = rest
escaped (c ∷ s) rest =
    if c == b'"' || c == b'\\' then b'\\' ∷ c ∷ escaped s rest else c ∷ escaped s rest

-- A quoted string, with `rest` behind it.
unfoldable pub quoted : Bytes → Bytes → Bytes
unfolding escaped
quoted s rest = b'"' ∷ escaped s (b'"' ∷ rest)

unfoldable pub printed : Node → Bytes → Bytes
printed no_children rest = rest
printed (child k (string s) n) rest = b'\n' ∷ quoted k (b' ' ∷ quoted s (printed n rest))
printed (child k (node c) n) rest =
    b'\n' ∷ quoted k (b'\n' ∷ b'{' ∷ printed c (b'\n' ∷ b'}' ∷ printed n rest))
printed (child k _ n) rest = printed n rest

read_quoted_plain :
    (c : ℕ) (t : Bytes)
    → (c == b'"' || c == b'\\') ≡ false
    → read_quoted (c ∷ t) ≡ prefixed c (read_quoted t)
unfolding read_quoted
read_quoted_plain c [] h = ground arith
read_quoted_plain c (d ∷ t) h = ground arith

read_quoted-escaped : (s rest : Bytes) → read_quoted (escaped s (b'"' ∷ rest)) ≡ ok (s, rest)
unfolding read_quoted escaped
read_quoted-escaped [] [] = refl
read_quoted-escaped [] (_ ∷ _) = refl
read_quoted-escaped (c ∷ s) rest = elim (Bool-cases (c == b'"' || c == b'\\')) [
  | inl e ↦ rw e (rw (read_quoted-escaped s rest))
  | inr e ↦ rw e (read_quoted_plain c (escaped s (b'"' ∷ rest)) e ∙ rw (read_quoted-escaped s rest))
]

pub next_token-quoted : (s rest : Bytes) → next_token (quoted s rest) ≡ ok (string_token s, rest)
unfolding next_token quoted
next_token-quoted s rest = rw (read_quoted-escaped s rest)
