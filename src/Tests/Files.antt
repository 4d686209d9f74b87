-- ===== src/Tests/Files.antt =====
-- The file tools and the caps on sample data.
use doota.Prelude.{
  ℕ, ◌≤◌, ◌*◌, ◌≡◌, refl, false, List, [], ◌∷◌, ◌++◌, some, arith, length, take, All, exists_row,
}
use doota.Prelude.Text.{Text, codes, trim_space, is_empty, text_eq, has_prefix, split_at_char}
use doota.Store.Query.{Result, ok}
use doota.Tools.Truncate.{BoundedBuffer, new_bounded_buffer, take_last, write, contents}
use doota.Tools.Buffer.{write_all, stream, write_all-ends, contents-compact}
use doota.Tools.Paths.{repo_path, rel_to_repo, path_of, clean, is_within}
use doota.Tools.Containment.{IsName, workspace_name, repo_path-contained}
use doota.Tools.Shown.{repo_path-rel_to_repo}
use doota.Tools.Quote.{shell_quote, read_word, plain, read_word-shell_quote}
use doota.Tools.Edit.{count_from, EditArgs, FileKind, file, edit_file, writes, count_of}
use doota.Tools.Editing.{edit_file-once}
use doota.Tools.Diff.{count_changes, count_line}

abbrev chunks : List Text
chunks = codes "abcdef" ∷ codes "ghij" ∷ []

write_all-ends_example :
    let b = write_all (new_bounded_buffer 4) chunks in
    (take 2 b.buf ≡ take 2 (stream chunks))
    × (take_last 2 b.buf ≡ take_last 2 (stream chunks))
    × (length b.buf ≤ 2 * 4)
    × (b.total ≡ length (stream chunks))
write_all-ends_example = write_all-ends 4 chunks

abbrev filled : BoundedBuffer
filled = record { limit = 4; buf = codes "abcdef"; total = 6 }

contents-compact_example : contents (write filled (codes "ghij")) ≡ codes "abij"
unfolding take_last
contents-compact_example = contents-compact filled (codes "ghij") (omega arith)

cleaned : repo_path (codes " a/./b/../c.go ") ≡ ok (codes "/workspace/repo/a/c.go")
unfolding repo_path clean is_within trim_space is_empty text_eq has_prefix split_at_char path_of
cleaned = refl

repo_path-contained_example :
    (names : List Text) × All IsName names
    × (codes "/workspace/repo/a/c.go" ≡ path_of (workspace_name ∷ names))
repo_path-contained_example =
    repo_path-contained (codes " a/./b/../c.go ") (codes "/workspace/repo/a/c.go") cleaned

main_names : All IsName (codes "cmd" ∷ codes "main.go" ∷ [])
unfolding is_empty text_eq exists_row
main_names = (
  record { nonempty = refl; no_dot = refl; no_dots = refl; no_slash = refl },
  (record { nonempty = refl; no_dot = refl; no_dots = refl; no_slash = refl }, tt),
)

repo_path-rel_to_repo_example :
    (rel_to_repo (codes "/workspace/repo/cmd/main.go") ≡ codes "cmd/main.go")
    × (repo_path (rel_to_repo (codes "/workspace/repo/cmd/main.go"))
        ≡ ok (codes "/workspace/repo/cmd/main.go"))
unfolding path_of trim_space
repo_path-rel_to_repo_example =
    repo_path-rel_to_repo (codes "cmd") (codes "main.go" ∷ []) main_names refl

read_word-shell_quote_example :
    read_word plain (shell_quote (codes "it's $HOME")) ≡ some (codes "it's $HOME")
read_word-shell_quote_example = read_word-shell_quote (codes "it's $HOME")

abbrev edit_args : EditArgs
edit_args = record {
  path = codes "a.go";
  old_string = codes "b";
  new_string = codes "xy";
  replace_every = false;
}

abbrev sizes : ℕ → Text
sizes n = []

abbrev stat : Text → Result (FileKind × ℕ)
stat p = ok (file, 3)

abbrev reads : Text → Result Text
reads p = ok (codes "abc")

edited :
    edit_file sizes stat reads edit_args
    ≡ ok (writes (codes "/workspace/repo/a.go") (codes "axyc") 1)
unfolding edit_file repo_path clean is_within trim_space is_empty text_eq has_prefix split_at_char
    path_of
edited = refl

edit_file-once_example :
    (old before after : Text) × (repo_path (codes "a.go") ≡ ok (codes "/workspace/repo/a.go"))
    × (reads (codes "/workspace/repo/a.go") ≡ ok old)
    × ◌≡◌ {A = ℕ} 1 1
    × (count_of old (codes "b") ≡ 1)
    × (count_of before (codes "b") ≡ 0)
    × (count_of after (codes "b") ≡ 0)
    × (old ≡ before ++ codes "b" ++ after)
    × (codes "axyc" ≡ before ++ codes "xy" ++ after)
edit_file-once_example =
    edit_file-once sizes stat reads edit_args (codes "/workspace/repo/a.go") (codes "axyc") 1 refl
      edited

-- Of two places that overlap, one is counted.
overlapping : count_of (codes "ababa") (codes "aba") ≡ 1
unfolding count_of count_from has_prefix
overlapping = refl

abbrev three_lines : List Text
three_lines = codes "ab" ∷ codes "cd" ∷ codes "ef" ∷ []

-- The line of a diff that removes `-- x` is not counted.
removed_comment : count_changes (codes "--- x" ∷ codes "-y" ∷ []) (0, 0) ≡ (0, 1)
unfolding count_changes count_line has_prefix
removed_comment = refl
