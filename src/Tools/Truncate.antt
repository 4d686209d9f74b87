-- ===== src/Tools/Truncate.antt =====
-- internal/tools/truncate.go: the caps on what a tool returns. A string is the list of its bytes.
use doota.Prelude.{
  ℕ, suc, ◌+◌, ◌-◌, ◌*◌, ◌/◌, Bool, true, false, [], ◌∷◌, ◌++◌, Option, none, some, ltb, leb, ◌==◌,
  ◌||◌, if◌then◌else◌, length, take, drop,
}
use doota.Prelude.Text.{Text, codes, decimal}

-- `strings.IndexByte`.
unfoldable pub index_byte : ℕ → Text → Option ℕ
index_byte b [] = none
index_byte b (c ∷ cs) =
    let rest = index_byte b cs in
    if c == b then some 0 else elim rest [ none ↦ none | some i ↦ some (suc i) ]

-- `strings.LastIndexByte`.
unfoldable pub last_index_byte : ℕ → Text → Option ℕ
last_index_byte b [] = none
last_index_byte b (c ∷ cs) = elim (last_index_byte b cs) [
  | some i ↦ some (suc i)
  | none ↦ if c == b then some 0 else none
]

unfoldable pub notice : Text → Text
notice t = codes "\n[truncated: " ++ t ++ codes "]"

-- The text up to its last line break, where one stands after the first byte.
unfoldable pub cut_back : Text → Text
unfolding last_index_byte
cut_back t = elim (last_index_byte b'\n' t) [ none ↦ t | some i ↦ if ltb 0 i then take i t else t ]

unfoldable pub clip : Text → ℕ → Text × Bool
unfolding cut_back
clip text limit =
    if limit == 0 || leb (length text) limit
    then (text, false)
    else (cut_back (take limit text), true)

-- The last `n` bytes, or all of fewer.
unfoldable pub take_last : ℕ → Text → Text
take_last n t = drop (length t - n) t

-- The text after its first line break, where that does not end it.
unfoldable pub cut_front : Text → Text
unfolding index_byte
cut_front t = elim (index_byte b'\n' t) [
  | none ↦ t
  | some i ↦ if ltb i (length t - 1) then drop (suc i) t else t
]

unfoldable pub cut_text : ℕ → ℕ → Text
cut_text cut total = decimal cut ++ codes " bytes cut from the middle of " ++ decimal total

unfoldable pub clip_middle : Text → ℕ → Text
unfolding cut_back take_last cut_front notice cut_text
clip_middle text limit =
    if limit == 0 || leb (length text) limit
    then text
    else let head = cut_back (take (limit / 2) text) in
      let tail = cut_front (take_last (limit / 2) text) in
      head
      ++ notice (cut_text (length text - length head - length tail) (length text))
      ++ codes "\n"
      ++ tail

-- `boundedBuffer`.
pub record BoundedBuffer : Type 0 where
  pub limit : ℕ
  pub buf : Text
  pub total : ℕ

unfoldable pub new_bounded_buffer : ℕ → BoundedBuffer
new_bounded_buffer limit = record { limit = limit; buf = []; total = 0 }

-- The first and the last `half` bytes.
unfoldable pub compact : ℕ → Text → Text
unfolding take_last
compact half t = take half t ++ take_last half t

-- `Write`, which reports that it consumed all of its argument.
unfoldable pub write : BoundedBuffer → Text → BoundedBuffer
unfolding compact
write b p = record b {
  total = b.total + length p;
  buf =
      if ltb (2 * b.limit) (length (b.buf ++ p))
      then compact (b.limit / 2) (b.buf ++ p)
      else b.buf ++ p;
}

-- `String`.
unfoldable pub contents : BoundedBuffer → Text
unfolding clip_middle
contents b = clip_middle b.buf b.limit
