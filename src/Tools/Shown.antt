-- ===== src/Tools/Shown.antt =====
-- The paths that a tool shows, read back.
use doota.Prelude.{
  ◌≡◌, refl, sym, ap, ◌∙◌, false, List, [], ◌∷◌, ◌++◌, reverse, reverse-cons, reverse-reverse,
  append_assoc, append-nil, ◌==◌, exists_row, arith, All,
}
use doota.Prelude.Text.{
  Text, codes, trim_space, is_empty, text_eq, has_prefix, split_step, split_at_char,
}
use doota.Store.Query.{ok}
use doota.Tools.Paths.{clean_step, clean_names, path_of, clean, is_within, repo_path, rel_to_repo}
use doota.Tools.Containment.{IsName, has_slash, workspace_name}

split_at_char-name :
    (s rest : Text) (ss : List Text)
    → has_slash s ≡ false
    → split_at_char b'/' rest ≡ [] ∷ ss
    → split_at_char b'/' (s ++ rest) ≡ s ∷ ss
unfolding split_at_char split_step exists_row
split_at_char-name [] rest ss h e = e
split_at_char-name (c ∷ s) rest ss h e =
    let other : (c == b'/') ≡ false = ground arith in
    rw (other, split_at_char-name s rest ss (ground arith) e) refl

split_at_char-path_of : (ss : List Text) → All IsName ss → split_at_char b'/' (path_of ss) ≡ [] ∷ ss
unfolding split_at_char split_step path_of
split_at_char-path_of [] all = refl
split_at_char-path_of (s ∷ ss) all =
    ap (λ ts. [] ∷ ts)
      (split_at_char-name s (path_of ss) ss all.0.no_slash (split_at_char-path_of ss all.1))

clean_names-path_of :
    (names ss : List Text) → All IsName ss → clean_names names ss ≡ reverse ss ++ names
unfolding clean_names clean_step
clean_names-path_of names [] all = refl
clean_names-path_of names (s ∷ ss) all =
    let pushed : clean_step names s ≡ s ∷ names =
      rw (all.0.nonempty, all.0.no_dot, all.0.no_dots, clean_step) refl in
    rw (pushed, clean_names-path_of (s ∷ names) ss all.1, reverse-cons s ss)
      (sym (append_assoc (reverse ss) (s ∷ []) names))

-- Cleaning leaves a path of names as it is.
clean-path_of :
    (s : Text) (ss : List Text) → All IsName (s ∷ ss) → clean (path_of (s ∷ ss)) ≡ path_of (s ∷ ss)
unfolding clean clean_names clean_step
clean-path_of s ss all =
    ap (λ (ts : List Text). elim ts as (λ _. Text) [ [] ↦ codes "/" | s ∷ ss ↦ path_of (s ∷ ss) ])
      (ap (λ ts. reverse (clean_names [] ts)) (split_at_char-path_of (s ∷ ss) all)
        ∙ ap reverse (clean_names-path_of [] (s ∷ ss) all ∙ append-nil (reverse (s ∷ ss)))
        ∙ reverse-reverse (s ∷ ss))

name-starts :
    (n rest : Text)
    → IsName n
    → (is_empty (n ++ rest) ≡ false) × (has_prefix (n ++ rest) (codes "/") ≡ false)
unfolding is_empty has_prefix exists_row
name-starts [] rest name = absurd (let wrong = name.nonempty in cc)
name-starts (c ∷ n) rest name =
    let other : (c == b'/') ≡ false = ground (arith, name.no_slash) in (refl, rw other refl)

repository-names : All IsName (workspace_name ∷ codes "repo" ∷ [])
unfolding is_empty text_eq exists_row
repository-names = (
  record { nonempty = refl; no_dot = refl; no_dots = refl; no_slash = refl },
  (record { nonempty = refl; no_dot = refl; no_dots = refl; no_slash = refl }, tt),
)

-- A path in the repository is shown relative to it, and what is shown names the same file when a
-- tool gets it back, where it neither starts nor ends with a blank.
pub repo_path-rel_to_repo :
    (n : Text) (ns : List Text)
    → All IsName (n ∷ ns)
    → trim_space (n ++ path_of ns) ≡ n ++ path_of ns
    → let abs = path_of (workspace_name ∷ codes "repo" ∷ n ∷ ns) in
      (rel_to_repo abs ≡ n ++ path_of ns) × (repo_path (rel_to_repo abs) ≡ ok abs)
unfolding rel_to_repo repo_path is_within text_eq has_prefix path_of
repo_path-rel_to_repo n ns all trimmed =
    let (nonempty, relative) = name-starts n (path_of ns) all.0 in
    let cleaned =
      clean-path_of workspace_name (codes "repo" ∷ n ∷ ns)
        (repository-names.0, (repository-names.1.0, all)) in
    (refl, rw (repo_path, trimmed, nonempty, relative, cleaned) refl)
