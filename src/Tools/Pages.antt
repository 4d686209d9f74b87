-- ===== src/Tools/Pages.antt =====
-- Which lines of a file a read shows, and where the next one goes on.
use doota.Prelude.{
  ℕ, ◌+◌, ◌≤◌, ◌<◌, ◌≡◌, ◌⊎◌, Bool, true, false, List, [], ◌∷◌, ◌++◌, ◌==◌, length, take, drop, All,
  exists_row, ◌-◌,
}
use doota.Prelude.Text.{Text, codes, decimal, join, split_at_char}
use doota.Tools.Read.{Window, numbered, number_lines}

abbrev pub has_break : Text → Bool
has_break t = exists_row (λ c. c == b'\n') t

-- What a page holds: the lines from the offset on, as many as the limit allows or the cap leaves of
-- them, and it says to read on at the line after them.
pub record Page (cap : ℕ) (lines : List Text) (offset limit : ℕ) (w : Window) : Type 0 where
  pub left : List Text
  pub shown : take limit (drop offset lines) ≡ split_at_char b'\n' w.body ++ left
  pub next : w.last ≡ offset + length (split_at_char b'\n' w.body)
  pub all_of_them :
      (left ≡ [])
      ⊎ ((w.capped ≡ true) × (cap < length (join (codes "\n") (take limit (drop offset lines)))))

-- A page that ends within a line.
pub record CutShort (cap : ℕ) (lines : List Text) (offset limit : ℕ) (w : Window) : Type 0 where
  pub told : w.capped ≡ true
  pub start : w.body ≡ take cap (join (codes "\n") (take limit (drop offset lines)))
  pub full : length w.body ≡ cap

-- What is numbered of it: its lines, but for an empty one at the end.
pub record Numbered (w : Window) (offset : ℕ) : Type 0 where
  pub rows : List Text
  pub numbers :
      number_lines w.body (offset + 1)
      ≡ join
          (codes "\n")
          (numbered (length (decimal (offset + 1 + length rows - 1))) (offset + 1) rows)
  pub of_lines :
      (split_at_char b'\n' w.body ≡ rows) ⊎ (split_at_char b'\n' w.body ≡ rows ++ [] ∷ [])

module _ (cap : ℕ) (lines : List Text) (offset limit : ℕ)
    (all : All (λ s. has_break s ≡ false) lines) (some_lines : 1 ≤ limit)
    (inside : offset < length lines) where
  abbrev allowed : List Text
  allowed = take limit (drop offset lines)

  abbrev body : Text
  body = join (codes "\n") allowed
