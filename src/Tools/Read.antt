-- ===== src/Tools/Read.antt =====
-- internal/tools/read.go: read_file, with the line numbers of truncate.go. What the sandbox says of
-- the path and reads from it are parameters, as is byteCount. Text is a list of bytes.
use doota.Prelude.{
  ℕ, zero, suc, ◌+◌, ◌-◌, Bool, true, false, List, [], ◌∷◌, ◌++◌, ◌==◌, ltb, leb, if◌then◌else◌,
  length, take, drop, exists_row,
}
use doota.Prelude.Int.{ℤ, clamp}
use doota.Prelude.Text.{Text, codes, decimal, is_empty, join, split_at_char}
use doota.Store.Query.{Result, ok, err, error_message, wrapped}
use doota.Tools.Truncate.{clip, notice}
use doota.Tools.Paths.{repo_path, rel_to_repo}
use doota.Tools.Edit.{FileKind, file, missing, dir, other, read_ceiling_bytes}

abbrev pub max_file_lines : ℕ
max_file_lines = 2000

abbrev pub max_file_bytes : ℕ
max_file_bytes = 256000

unfoldable pub drop_last_break : Text → Text
drop_last_break [] = []
drop_last_break (c ∷ []) = if c == b'\n' then [] else c ∷ []
drop_last_break (c ∷ d ∷ ds) = c ∷ drop_last_break (d ∷ ds)

-- `strings.Split(strings.TrimSuffix(s, "\n"), "\n")`.
unfoldable pub lines_of : Text → List Text
unfolding drop_last_break split_at_char
lines_of s = split_at_char b'\n' (drop_last_break s)

unfoldable pub blanks : ℕ → Text
blanks zero = []
blanks (suc n) = b' ' ∷ blanks n

-- `%*d  %s`.
unfoldable pub numbered_line : ℕ → ℕ → Text → Text
unfolding blanks decimal
numbered_line width n line = blanks (width - length (decimal n)) ++ decimal n ++ codes "  " ++ line

unfoldable pub numbered : ℕ → ℕ → List Text → List Text
unfolding numbered_line
numbered width n [] = []
numbered width n (l ∷ ls) = numbered_line width n l ∷ numbered width (suc n) ls

unfoldable pub number_lines : Text → ℕ → Text
unfolding numbered lines_of join
number_lines text start =
    let ls = lines_of text in
    join (codes "\n") (numbered (length (decimal (start + length ls - 1))) start ls)

-- The limit of a call, of 0 or less for none.
unfoldable pub line_limit : ℤ → ℕ
line_limit z =
    if clamp z == 0
    then max_file_lines
    else if ltb max_file_lines (clamp z)
    then max_file_lines
    else clamp z

-- The part of a file that is shown, of at most `cap` bytes, and the line after it.
pub record Window : Type 0 where
  pub body : Text
  pub last : ℕ
  pub capped : Bool

unfoldable pub window : ℕ → List Text → ℕ → ℕ → Window
unfolding join clip split_at_char
window cap lines offset limit =
    let body = join (codes "\n") (take limit (drop offset lines)) in
    let kept = clip body cap in
    if kept.1
    then record {
      body = kept.0;
      last = offset + length (split_at_char b'\n' kept.0);
      capped = true;
    }
    else record {
      body = body;
      last = if ltb (length lines) (offset + limit) then length lines else offset + limit;
      capped = false;
    }

unfoldable pub notices : (ℕ → Text) → Window → ℕ → ℕ → List Text
notices byte_count w offset total =
    (if w.capped then (codes "stopped at " ++ byte_count max_file_bytes) ∷ [] else [])
    ++ (if ltb w.last total
        then (codes "showing lines "
            ++ decimal (offset + 1)
            ++ codes "-"
            ++ decimal w.last
            ++ codes " of "
            ++ decimal total
            ++ codes "; read on with offset "
            ++ decimal w.last)
          ∷ []
        else [])

unfoldable pub shown_window : (ℕ → Text) → Text → Window → ℕ → ℕ → Text
unfolding number_lines notices notice join is_empty
shown_window byte_count path w offset total =
    path
    ++ codes " (lines "
    ++ decimal (offset + 1)
    ++ codes "-"
    ++ decimal w.last
    ++ codes " of "
    ++ decimal total
    ++ codes ")\n"
    ++ number_lines w.body (offset + 1)
    ++ (if is_empty (notices byte_count w offset total)
        then []
        else notice (join (codes "; ") (notices byte_count w offset total)))

-- A failure that the model reads, or what is shown.
pub data Reading : Type 0 where
  refuses shows : Text → Reading

unfoldable pub read_text : (ℕ → Text) → Text → ℤ → ℤ → Text → Reading
unfolding lines_of line_limit window shown_window
read_text byte_count abs offset limit raw =
    if exists_row (λ c. c == 0) raw
    then refuses (
        rel_to_repo abs
        ++ codes " looks like a binary file ("
        ++ byte_count (length raw)
        ++ codes "). Reading it as text would be meaningless.")
    else if is_empty raw
    then shows (rel_to_repo abs ++ codes " is empty (0 bytes).")
    else let lines = lines_of raw in
      if leb (length lines) (clamp offset)
      then refuses (
          codes "offset "
          ++ decimal (clamp offset)
          ++ codes " is past the end of "
          ++ rel_to_repo abs
          ++ codes ", which has "
          ++ decimal (length lines)
          ++ codes " lines.")
      else shows (
          shown_window byte_count (rel_to_repo abs)
            (window max_file_bytes lines (clamp offset) (line_limit limit)) (clamp offset)
            (length lines))

module _ (byte_count : ℕ → Text) (stat_path : Text → Result (FileKind × ℕ))
    (read_bytes : Text → Result Text) where
  unfoldable pub read_known : Text → ℤ → ℤ → FileKind → ℕ → Result Reading
  unfolding read_text
  read_known abs offset limit missing size =
      ok (refuses (rel_to_repo abs ++ codes " does not exist."))
  read_known abs offset limit dir size =
      ok (refuses (rel_to_repo abs ++ codes " is a directory. Use list_dir to see what is in it."))
  read_known abs offset limit other size =
      ok (refuses (rel_to_repo abs ++ codes " is not a regular file."))
  read_known abs offset limit file size =
      if ltb read_ceiling_bytes size
      then ok (
          refuses (
            rel_to_repo abs
            ++ codes " is "
            ++ byte_count size
            ++ codes ", larger than the "
            ++ byte_count read_ceiling_bytes
            ++ codes " read limit. Use bash with sed or grep to pull out the part you need."))
      else elim (read_bytes abs) [
        | err e ↦ err (wrapped (codes "read " ++ rel_to_repo abs) e)
        | ok raw ↦ ok (read_text byte_count abs offset limit raw)
      ]

  -- `readFileTool.Execute`.
  unfoldable pub read_file : Text → ℤ → ℤ → Result Reading
  unfolding read_known
  read_file path offset limit = elim (repo_path path) [
    | err e ↦ ok (refuses (error_message e))
    | ok abs ↦ elim (stat_path abs) [
      | err e ↦ err e
      | ok (kind, size) ↦ read_known abs offset limit kind size
    ]
  ]
