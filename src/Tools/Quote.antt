-- ===== src/Tools/Quote.antt =====
-- internal/tools/tools.go: shellQuote, and how a shell reads what it gives.
use doota.Prelude.{
  ℕ, ◌≡◌, refl, ap, true, false, [], ◌∷◌, ◌++◌, Option, none, some, ◌==◌, arith, if◌then◌else◌,
  Bool-cases, inl, inr,
}
use doota.Prelude.Text.{Text, codes}

-- `strings.ReplaceAll` of each quote by a closed quote, an escaped one and an opened one.
unfoldable pub escape_quotes : Text → Text
escape_quotes [] = []
escape_quotes (c ∷ cs) =
    let rest = escape_quotes cs in if c == b'\'' then codes "'\\''" ++ rest else c ∷ rest

unfoldable pub shell_quote : Text → Text
unfolding escape_quotes
shell_quote v = codes "'" ++ escape_quotes v ++ codes "'"

abbrev and_then : ℕ → Option Text → Option Text
and_then c none = none
and_then c (some t) = some (c ∷ t)

pub data Quoting : Type 0 where
  plain quoted escaped : Quoting

-- The word that a POSIX shell reads from quoted parts and escaped characters; `none` for an open
-- quote, a backslash at the end, and any other text outside quotes.
unfoldable pub read_word : Quoting → Text → Option Text
read_word plain [] = some []
read_word quoted [] = none
read_word escaped [] = none
read_word plain (c ∷ cs) = elim (c == b'\'') [
  | true ↦ read_word quoted cs
  | false ↦ elim (c == b'\\') [ true ↦ read_word escaped cs | false ↦ none ]
]
read_word quoted (c ∷ cs) = elim (c == b'\'') [
  | true ↦ read_word plain cs
  | false ↦ and_then c (read_word quoted cs)
]
read_word escaped (c ∷ cs) = and_then c (read_word plain cs)

read_word-escape_quotes : (v : Text) → read_word quoted (escape_quotes v ++ codes "'") ≡ some v
unfolding read_word escape_quotes
read_word-escape_quotes [] = refl
read_word-escape_quotes (c ∷ cs) = elim (Bool-cases (c == b'\'')) [
  | inl quote ↦
      let same : c ≡ b'\'' = ground arith in
      rw same (ap (and_then b'\'') (read_word-escape_quotes cs))
  | inr other ↦ rw (other, read_word, other) (ap (and_then c) (read_word-escape_quotes cs))
]

-- A shell reads back exactly the text that was quoted, whatever characters it has.
pub read_word-shell_quote : (v : Text) → read_word plain (shell_quote v) ≡ some v
unfolding read_word shell_quote
read_word-shell_quote v = read_word-escape_quotes v
