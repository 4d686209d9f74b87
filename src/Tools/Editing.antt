-- ===== src/Tools/Editing.antt =====
-- What an edit changes in a file.
use doota.Prelude.{
  ℕ, ◌≡◌, refl, sym, ap, ◌∙◌, Bool, true, false, not, ◌++◌, ◌==◌, ◌&&◌, ltb, if◌then◌else◌, arith,
}
use doota.Prelude.Text.{Text, codes, is_empty, text_eq}
use doota.Store.Query.{Result, ok, err, wrapped, error_message}
use doota.Tools.Paths.{repo_path, rel_to_repo}
use doota.Tools.Edit.{
  count_of, replace, replace_all, EditArgs, Edit, refuses, writes, edit_text, edit_known, edit_file,
  read_ceiling_bytes, FileKind, file, missing, dir, other,
}
use doota.Tools.Matching.{replace-first}

-- An edit of one place, as the code writes it: the content, the path and the number of matches.
record Once (abs : Text) (args : EditArgs) (old path content : Text) (n : ℕ) : Type 0 where
  same_path : abs ≡ path
  one : n ≡ 1
  unique : count_of old args.old_string ≡ 1
  written : content ≡ replace old args.old_string args.new_string 1

edit_text-Once :
    (abs : Text) (args : EditArgs) (old path content : Text) (n : ℕ)
    → args.replace_every ≡ false
    → edit_text abs args old ≡ writes path content n
    → Once abs args old path content n
unfolding edit_text
edit_text-Once abs args old path content n single h =
    by_count _ _ (count == 0) (ltb 1 count) args.replace_every refl refl single h
  where
    count : ℕ
    count = count_of old args.old_string

    by_count :
        (absent twice : Text) (none_found many every : Bool)
        → (count == 0) ≡ none_found
        → ltb 1 count ≡ many
        → every ≡ false
        → (if none_found
            then refuses absent
            else if many && not every
            then refuses twice
            else writes abs
                (if every
                  then replace_all old args.old_string args.new_string
                  else replace old args.old_string args.new_string 1)
                count)
          ≡ writes path content n
        → Once abs args old path content n
    by_count absent twice true many every x y z h = absurd cc
    by_count absent twice false true true x y z h = absurd cc
    by_count absent twice false true false x y z h = absurd cc
    by_count absent twice false false true x y z h = absurd cc
    by_count absent twice false false false x y z h =
        let unique : count ≡ 1 = ground arith in
        let same_count : count ≡ n = cc in
        let same_content : replace old args.old_string args.new_string 1 ≡ content = cc in
        record {
          same_path = cc;
          one = omega (arith, unique, same_count);
          unique = unique;
          written = sym same_content;
        }

module _ (byte_count : ℕ → Text) (stat_path : Text → Result (FileKind × ℕ))
    (read_file : Text → Result Text) where
  edit_known-reads :
      (abs : Text) (args : EditArgs) (kind : FileKind) (size : ℕ) (path content : Text) (n : ℕ)
      → edit_known byte_count stat_path read_file abs args kind size ≡ ok (writes path content n)
      → (old : Text) × (read_file abs ≡ ok old) × (edit_text abs args old ≡ writes path content n)
  unfolding edit_known
  edit_known-reads abs args missing size path content n h = absurd cc
  edit_known-reads abs args dir size path content n h = absurd cc
  edit_known-reads abs args other size path content n h = absurd cc
  edit_known-reads abs args file size path content n h =
      by_size _ (ltb read_ceiling_bytes size) (read_file abs) refl h
    where
      by_size :
          (large : Text) (over : Bool) (reply : Result Text)
          → read_file abs ≡ reply
          → (if over then ok (refuses large) else elim reply as (λ _. Result Edit) [
            | err e ↦ err (wrapped (codes "read " ++ rel_to_repo abs) e)
            | ok old ↦ ok (edit_text abs args old)
          ])
            ≡ ok (writes path content n)
          → (old : Text) × (read_file abs ≡ ok old)
            × (edit_text abs args old ≡ writes path content n)
      by_size large true reply x h = absurd cc
      by_size large false (err e) x h = absurd cc
      by_size large false (ok old) x h = (old, x, cc)

  -- An edit of a file in one place, when it is written: the path is the one that was asked for, the
  -- file held one match of the old text, where matches are counted from the left and what one covers
  -- is not looked at again, with none in what is before it and none in what is after it, and what is
  -- written is the file with that match, and nothing else, replaced by the new text.
  pub edit_file-once :
      (args : EditArgs) (path content : Text) (n : ℕ)
      → args.replace_every ≡ false
      → edit_file byte_count stat_path read_file args ≡ ok (writes path content n)
      → (old before after : Text) × (repo_path args.path ≡ ok path)
        × (read_file path ≡ ok old)
        × (n ≡ 1)
        × (count_of old args.old_string ≡ 1)
        × (count_of before args.old_string ≡ 0)
        × (count_of after args.old_string ≡ 0)
        × (old ≡ before ++ args.old_string ++ after)
        × (content ≡ before ++ args.new_string ++ after)
  unfolding edit_file
  edit_file-once args path content n single h =
      by_path (repo_path args.path) refl (is_empty args.old_string) refl
        (text_eq args.old_string args.new_string) h
    where
      edited :
          (abs : Text) (kind : FileKind) (size : ℕ)
          → repo_path args.path ≡ ok abs
          → is_empty args.old_string ≡ false
          → edit_known byte_count stat_path read_file abs args kind size
            ≡ ok (writes path content n)
          → (old before after : Text) × (repo_path args.path ≡ ok path)
            × (read_file path ≡ ok old)
            × (n ≡ 1)
            × (count_of old args.old_string ≡ 1)
            × (count_of before args.old_string ≡ 0)
            × (count_of after args.old_string ≡ 0)
            × (old ≡ before ++ args.old_string ++ after)
            × (content ≡ before ++ args.new_string ++ after)
      edited abs kind size p some_text h =
          let (old, read, step) = edit_known-reads abs args kind size path content n h in
          let o = edit_text-Once abs args old path content n single step in
          let first =
            replace-first args.old_string args.new_string old some_text (omega (arith, o.unique)) in
          (
            old,
            first.before,
            first.after,
            p ∙ ap ok o.same_path,
            ap read_file (sym o.same_path) ∙ read,
            o.one,
            o.unique,
            first.is_first,
            omega (arith, o.unique, first.counted),
            first.found,
            o.written ∙ first.replaced,
          )

      by_path :
          (p : Result Text)
          → repo_path args.path ≡ p
          → (blank : Bool) → is_empty args.old_string ≡ blank
          → (same : Bool)
          → elim p as (λ _. Result Edit) [
            | err e ↦ ok (refuses (error_message e))
            | ok abs ↦
                if blank
                then ok (
                    refuses (
                      codes
                        "old_string is required. Use write_file to create a file from nothing."))
                else if same
                then ok (
                    refuses (
                      codes
                        "old_string and new_string are identical, so this edit would do nothing."))
                else elim (stat_path abs) as (λ _. Result Edit) [
                  | err e ↦ err e
                  | ok (kind, size) ↦ edit_known byte_count stat_path read_file abs args kind size
                ]
          ]
            ≡ ok (writes path content n)
          → (old before after : Text) × (repo_path args.path ≡ ok path)
            × (read_file path ≡ ok old)
            × (n ≡ 1)
            × (count_of old args.old_string ≡ 1)
            × (count_of before args.old_string ≡ 0)
            × (count_of after args.old_string ≡ 0)
            × (old ≡ before ++ args.old_string ++ after)
            × (content ≡ before ++ args.new_string ++ after)
      by_path (err e) x blank y same h = absurd cc
      by_path (ok abs) x true y same h = absurd cc
      by_path (ok abs) x false y true h = absurd cc
      by_path (ok abs) x false y false h = by_stat (stat_path abs) h
        where
          by_stat :
              (reply : Result (FileKind × ℕ))
              → elim reply as (λ _. Result Edit) [
                | err e ↦ err e
                | ok (kind, size) ↦ edit_known byte_count stat_path read_file abs args kind size
              ]
                ≡ ok (writes path content n)
              → (old before after : Text) × (repo_path args.path ≡ ok path)
                × (read_file path ≡ ok old)
                × (n ≡ 1)
                × (count_of old args.old_string ≡ 1)
                × (count_of before args.old_string ≡ 0)
                × (count_of after args.old_string ≡ 0)
                × (old ≡ before ++ args.old_string ++ after)
                × (content ≡ before ++ args.new_string ++ after)
          by_stat (err e) h = absurd cc
          by_stat (ok (kind, size)) h = edited abs kind size x y h
