-- ===== src/Tools/Diff.antt =====
-- internal/tools/diff.go: what a change is shown as. What `git diff` prints is a parameter, as is
-- byteCount.
use doota.Prelude.{
  ℕ, suc, ◌+◌, Bool, true, false, List, [], ◌∷◌, ◌++◌, Option, none, some, ◌==◌, ◌||◌,
  if◌then◌else◌,
}
use doota.Prelude.Text.{Text, codes, decimal, is_empty, has_prefix, split_at_char}
use doota.Tools.Truncate.{clip, notice}
use doota.Tools.Paths.{rel_to_repo}
use doota.Tools.Read.{drop_last_break}

pub record Diff : Type 0 where
  pub path : Text
  pub unified : Text
  pub added : ℕ
  pub removed : ℕ
  pub created : Bool
  pub truncated : Bool

-- `Stat`.
unfoldable pub stat : Diff → Text
stat d =
    if d.created
    then d.path ++ codes " (new file, " ++ decimal d.added ++ codes " lines)"
    else d.path ++ codes " (+" ++ decimal d.added ++ codes " -" ++ decimal d.removed ++ codes ")"

unfoldable pub breaks_in : Text → ℕ
breaks_in [] = 0
breaks_in (c ∷ cs) = (if c == b'\n' then 1 else 0) + breaks_in cs

unfoldable pub count_lines : Text → ℕ
unfolding drop_last_break breaks_in is_empty
count_lines s = if is_empty s then 0 else breaks_in (drop_last_break s) + 1

-- One line of the diff.
unfoldable pub count_line : Text → ℕ × ℕ → ℕ × ℕ
unfolding has_prefix
count_line line (added, removed) =
    if has_prefix line (codes "+++") || has_prefix line (codes "---")
    then (added, removed)
    else if has_prefix line (codes "+")
    then (suc added, removed)
    else if has_prefix line (codes "-")
    then (added, suc removed)
    else (added, removed)

unfoldable pub count_changes : List Text → ℕ × ℕ → ℕ × ℕ
unfolding count_line
count_changes [] counts = counts
count_changes (l ∷ ls) counts = count_changes ls (count_line l counts)

abbrev pub max_diff_bytes : ℕ
max_diff_bytes = 61440

-- `fileDiff`; `none` is a diff that could not be had.
unfoldable pub file_diff : (ℕ → Text) → Text → Bool → Text → Option Text → Diff
unfolding count_lines count_changes clip notice split_at_char
file_diff byte_count abs true new git = record {
  path = rel_to_repo abs;
  unified = [];
  added = count_lines new;
  removed = 0;
  created = true;
  truncated = false;
}
file_diff byte_count abs false new none = record {
  path = rel_to_repo abs;
  unified = [];
  added = 0;
  removed = 0;
  created = false;
  truncated = false;
}
file_diff byte_count abs false new (some unified) =
    let counts = count_changes (split_at_char b'\n' unified) (0, 0) in
    let kept = clip unified max_diff_bytes in
    record {
      path = rel_to_repo abs;
      unified =
          if kept.1
          then kept.0 ++ notice (codes "diff larger than " ++ byte_count max_diff_bytes)
          else unified;
      added = counts.0;
      removed = counts.1;
      created = false;
      truncated = kept.1;
    }
