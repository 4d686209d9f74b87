-- ===== src/Tools/Edit.antt =====
-- internal/tools/write.go: edit_file up to its write, with `strings.Count` and `strings.Replace` for
-- a part that is not empty. What the sandbox says of the path and reads from it are parameters, as
-- is byteCount.
use doota.Prelude.{
  ℕ, zero, suc, ◌+◌, ◌-◌, Bool, not, [], ◌∷◌, ◌++◌, ◌==◌, ◌&&◌, ltb, if◌then◌else◌, length,
  exists_row,
}
use doota.Prelude.Text.{
  Text, codes, decimal, trim_space, is_empty, text_eq, has_prefix, contains_part,
}
use doota.Store.Query.{Result, ok, err, error_message, wrapped}
use doota.Tools.Paths.{repo_path, rel_to_repo}

-- The matches of `part` that do not overlap, where the next `skip` bytes belong to a match already.
unfoldable pub count_from : Text → ℕ → Text → ℕ
unfolding has_prefix
count_from part skip [] = 0
count_from part zero (c ∷ cs) =
    let hit = has_prefix (c ∷ cs) part in
    (if hit then 1 else 0) + count_from part (if hit then length part - 1 else 0) cs
count_from part (suc skip) (c ∷ cs) = count_from part skip cs

-- `strings.Count(s, part)`.
unfoldable pub count_of : Text → Text → ℕ
unfolding count_from
count_of s part = count_from part 0 s

-- The first `n` of those matches replaced.
unfoldable pub replace_from : Text → Text → ℕ → ℕ → Text → Text
unfolding has_prefix
replace_from part new n skip [] = []
replace_from part new n zero (c ∷ cs) =
    let hit = ltb 0 n && has_prefix (c ∷ cs) part in
    (if hit then new else c ∷ [])
    ++ replace_from part new (if hit then n - 1 else n) (if hit then length part - 1 else 0) cs
replace_from part new n (suc skip) (c ∷ cs) = replace_from part new n skip cs

-- `strings.Replace(s, part, new, n)`.
unfoldable pub replace : Text → Text → Text → ℕ → Text
unfolding replace_from
replace s part new n = replace_from part new n 0 s

-- `strings.ReplaceAll(s, part, new)`.
unfoldable pub replace_all : Text → Text → Text → Text
unfolding replace count_of
replace_all s part new = replace s part new (count_of s part)

-- What the command of `statPath` prints.
pub data FileKind : Type 0 where
  file missing dir other : FileKind

pub record EditArgs : Type 0 where
  pub path : Text
  pub old_string : Text
  pub new_string : Text
  pub replace_every : Bool

-- A failure that the model reads, or the path and the content that are written and the number of
-- matches.
pub data Edit : Type 0 where
  refuses : Text → Edit
  writes : Text → Text → ℕ → Edit

abbrev pub read_ceiling_bytes : ℕ
read_ceiling_bytes = 4194304

unfoldable pub not_found_hint : Text → Text → Text
unfolding text_eq contains_part trim_space
not_found_hint old part =
    if exists_row (λ c. c == b'\t') part
    then codes " The text contains a tab; check whether the file uses spaces."
    else if not (text_eq (trim_space part) part) && contains_part (trim_space part) old
    then codes " The trimmed text does appear, so the leading or trailing whitespace is wrong."
    else []

-- From the file's text on.
unfoldable pub edit_text : Text → EditArgs → Text → Edit
unfolding count_of replace replace_all not_found_hint
edit_text abs args old =
    let count = count_of old args.old_string in
    if count == 0
    then refuses (
        codes "old_string was not found in "
        ++ rel_to_repo abs
        ++ codes " (0 matches). Read the file and copy the exact text, including indentation."
        ++ not_found_hint old args.old_string)
    else if ltb 1 count && not args.replace_every
    then refuses (
        codes "old_string matches "
        ++ decimal count
        ++ codes " times in "
        ++ rel_to_repo abs
        ++ codes ". Add surrounding lines to make it unique, or set replace_all true to change all "
        ++ decimal count
        ++ codes ".")
    else writes abs
        (if args.replace_every
          then replace_all old args.old_string args.new_string
          else replace old args.old_string args.new_string 1)
        count

module _ (byte_count : ℕ → Text) (stat_path : Text → Result (FileKind × ℕ))
    (read_file : Text → Result Text) where
  unfoldable pub edit_known : Text → EditArgs → FileKind → ℕ → Result Edit
  unfolding edit_text
  edit_known abs args missing size =
      ok (refuses (rel_to_repo abs ++ codes " does not exist. Use write_file to create it."))
  edit_known abs args dir size = ok (refuses (rel_to_repo abs ++ codes " is a directory."))
  edit_known abs args other size = ok (refuses (rel_to_repo abs ++ codes " is not a regular file."))
  edit_known abs args file size =
      if ltb read_ceiling_bytes size
      then ok (
          refuses (
            rel_to_repo abs
            ++ codes " is "
            ++ byte_count size
            ++ codes ", too large to edit in memory. Use bash with sed for a file this size."))
      else elim (read_file abs) [
        | err e ↦ err (wrapped (codes "read " ++ rel_to_repo abs) e)
        | ok old ↦ ok (edit_text abs args old)
      ]

  -- `editFileTool.Execute`.
  unfoldable pub edit_file : EditArgs → Result Edit
  unfolding edit_known is_empty text_eq
  edit_file args = elim (repo_path args.path) [
    | err e ↦ ok (refuses (error_message e))
    | ok abs ↦
        if is_empty args.old_string
        then ok (
            refuses (codes "old_string is required. Use write_file to create a file from nothing."))
        else if text_eq args.old_string args.new_string
        then ok (
            refuses
              (codes "old_string and new_string are identical, so this edit would do nothing."))
        else elim (stat_path abs) [
          | err e ↦ err e
          | ok (kind, size) ↦ edit_known abs args kind size
        ]
  ]
