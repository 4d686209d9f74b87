-- ===== src/Tools/Containment.antt =====
-- Where the paths that the file tools accept lie.
use doota.Prelude.{
  ℕ, ◌≡◌, refl, sym, ap, ◌∙◌, Bool, true, false, List, [], ◌∷◌, ◌++◌, reverse, ◌==◌, ◌||◌,
  if◌then◌else◌, exists_row, arith, reverse-cons, Bool-cases, inl, inr, All, ◌⊎◌,
}
use doota.Prelude.Text.{
  Text, codes, trim_space, is_empty, text_eq, has_prefix, split_step, split_at_char, text_eq_sound,
}
use doota.Store.Query.{Error, ok, err}
use doota.Tools.Paths.{
  clean_step, clean_names, path_of, clean, is_within, repo_path, workspace_path, repo_dir,
}

abbrev pub has_slash : Text → Bool
has_slash t = exists_row (λ c. c == b'/') t

-- A name of a file or a directory: nothing that a path reads otherwise.
pub record IsName (s : Text) : Type 0 where
  pub nonempty : is_empty s ≡ false
  pub no_dot : text_eq s (codes ".") ≡ false
  pub no_dots : text_eq s (codes "..") ≡ false
  pub no_slash : has_slash s ≡ false

abbrev NoSlash : List Text → Type 0
NoSlash ss = All (λ s. has_slash s ≡ false) ss

split_step-NoSlash :
    (b : Bool) (c : ℕ) (ss : List Text) → (c == b'/') ≡ b → NoSlash ss → NoSlash (split_step b c ss)
unfolding split_step exists_row
split_step-NoSlash true c ss h all = (refl, all)
split_step-NoSlash false c [] h all = (rw h refl, tt)
split_step-NoSlash false c (s ∷ ss) h all = (rw h all.0, all.1)

split_at_char-NoSlash : (t : Text) → NoSlash (split_at_char b'/' t)
unfolding split_at_char exists_row
split_at_char-NoSlash [] = (refl, tt)
split_at_char-NoSlash (c ∷ cs) =
    split_step-NoSlash (c == b'/') c (split_at_char b'/' cs) refl (split_at_char-NoSlash cs)

clean_step-All :
    (names : List Text) (s : Text)
    → has_slash s ≡ false
    → All IsName names
    → All IsName (clean_step names s)
unfolding clean_step
clean_step-All names s h all =
    by_kind (is_empty s) (text_eq s (codes ".")) (text_eq s (codes "..")) refl refl refl
  where
    by_kind :
        (e d dd : Bool)
        → is_empty s ≡ e
        → text_eq s (codes ".") ≡ d
        → text_eq s (codes "..") ≡ dd
        → All IsName (
            if e || d
            then names
            else if dd
            then elim names as (λ _. List Text) [ [] ↦ [] | _ ∷ before ↦ before ]
            else s ∷ names)
    by_kind true d dd x y z = all
    by_kind false true dd x y z = all
    by_kind false false true x y z = before names all
      where
        before :
            (names : List Text)
            → All IsName names
            → All IsName (elim names as (λ _. List Text) [ [] ↦ [] | _ ∷ before ↦ before ])
        before [] all = tt
        before (n ∷ ns) all = all.1
    by_kind false false false x y z =
        (record { nonempty = x; no_dot = y; no_dots = z; no_slash = h }, all)

clean_names-All :
    (names ss : List Text) → NoSlash ss → All IsName names → All IsName (clean_names names ss)
unfolding clean_names
clean_names-All names [] h all = all
clean_names-All names (s ∷ ss) h all =
    clean_names-All (clean_step names s) ss h.1 (clean_step-All names s h.0 all)

All-append : (xs ys : List Text) → All IsName xs → All IsName ys → All IsName (xs ++ ys)
All-append [] ys a b = b
All-append (x ∷ xs) ys a b = (a.0, All-append xs ys a.1 b)

All-reverse : (xs : List Text) → All IsName xs → All IsName (reverse xs)
All-reverse [] a = tt
All-reverse (x ∷ xs) a =
    rw (reverse-cons x xs) (All-append (reverse xs) (x ∷ []) (All-reverse xs a.1) (a.0, tt))

-- A cleaned path is the root, or a path of names.
pub clean-names :
    (p : Text) → (clean p ≡ codes "/") ⊎ ((ss : List Text) × All IsName ss × (clean p ≡ path_of ss))
unfolding clean
clean-names p = by_names (reverse (clean_names [] (split_at_char b'/' p))) (
    All-reverse (clean_names [] (split_at_char b'/' p))
      (clean_names-All [] (split_at_char b'/' p) (split_at_char-NoSlash p) tt))
  where
    by_names :
        (ss : List Text)
        → All IsName ss
        → let q = elim ss as (λ _. Text) [ [] ↦ codes "/" | s ∷ ss ↦ path_of (s ∷ ss) ] in
          (q ≡ codes "/") ⊎ ((ss : List Text) × All IsName ss × (q ≡ path_of ss))
    by_names [] all = inl refl
    by_names (s ∷ ss) all = inr (s ∷ ss, all, refl)

-- The first name of a path is the one that a prefix gives up to its slash.
first_name :
    (w s rest : Text)
    → has_slash w ≡ false
    → has_slash s ≡ false
    → (rest ≡ []) ⊎ ((t : Text) × (rest ≡ b'/' ∷ t))
    → has_prefix (s ++ rest) (w ++ codes "/") ≡ true
    → s ≡ w
unfolding has_prefix exists_row
first_name [] [] rest hw hs hr h = refl
first_name [] (c ∷ s) rest hw hs hr h = ground arith
first_name (a ∷ w) [] rest hw hs (inl e) h = ground arith
first_name (a ∷ w) [] rest hw hs (inr (t, e)) h = ground arith
first_name (a ∷ w) (c ∷ s) rest hw hs hr h = ground (arith, first_name w s rest)

abbrev pub workspace_name : Text
workspace_name = codes "workspace"

path_of-starts : (ss : List Text) → (path_of ss ≡ []) ⊎ ((t : Text) × (path_of ss ≡ b'/' ∷ t))
unfolding path_of
path_of-starts [] = inl refl
path_of-starts (s ∷ ss) = inr (s ++ path_of ss, refl)

below_workspace :
    (ss : List Text)
    → All IsName ss
    → has_prefix (path_of ss) (workspace_path ++ codes "/") ≡ true
    → (names : List Text) × All IsName names × (path_of ss ≡ path_of (workspace_name ∷ names))
unfolding path_of has_prefix exists_row
below_workspace [] all h = absurd cc
below_workspace (s ∷ ss) all h =
    let first =
      first_name workspace_name s (path_of ss) refl all.0.no_slash (path_of-starts ss) h in
    (ss, all.1, ap (λ n. path_of (n ∷ ss)) first)

has_prefix_trans :
    (s t u : Text) → has_prefix s t ≡ true → has_prefix t u ≡ true → has_prefix s u ≡ true
unfolding has_prefix
has_prefix_trans s t [] h k = ground arith
has_prefix_trans s [] (c ∷ u) h k = ground arith
has_prefix_trans [] (b ∷ t) (c ∷ u) h k = ground arith
has_prefix_trans (a ∷ s) (b ∷ t) (c ∷ u) h k = ground (arith, has_prefix_trans s t u)

repo-workspace : (abs : Text) → is_within repo_dir abs ≡ true → is_within workspace_path abs ≡ true
unfolding is_within has_prefix text_eq
repo-workspace abs h = elim (Bool-cases (text_eq abs repo_dir)) [
  | inl e ↦ rw (text_eq_sound abs repo_dir e) refl
  | inr miss ↦
      let below : has_prefix abs (repo_dir ++ codes "/") ≡ true = rw miss at h in
      let above =
        has_prefix_trans abs (repo_dir ++ codes "/") (workspace_path ++ codes "/") below refl in
      ground (arith, above)
]

-- Either way of `repoPath`: a cleaned path that is inside the workspace.
repo_path-cleaned :
    (raw abs : Text)
    → repo_path raw ≡ ok abs
    → (p : Text) × (clean p ≡ abs) × (is_within workspace_path abs ≡ true)
unfolding repo_path
repo_path-cleaned raw abs h =
    let p = trim_space raw in
    let q = repo_dir ++ codes "/" ++ p in
    by_tests (is_empty p) (has_prefix p (codes "/")) (is_within workspace_path (clean p))
      (is_within repo_dir (clean q)) _ _ _ refl refl h
  where
    by_tests :
        (blank rooted inside below : Bool) (e₁ e₂ e₃ : Error)
        → is_within workspace_path (clean (trim_space raw)) ≡ inside
        → is_within repo_dir (clean (repo_dir ++ codes "/" ++ trim_space raw)) ≡ below
        → (if blank
            then err e₁
            else if rooted
            then if inside then ok (clean (trim_space raw)) else err e₂
            else if below
            then ok (clean (repo_dir ++ codes "/" ++ trim_space raw))
            else err e₃)
          ≡ ok abs
        → (p : Text) × (clean p ≡ abs) × (is_within workspace_path abs ≡ true)
    by_tests true rooted inside below e₁ e₂ e₃ x y h = absurd cc
    by_tests false true false below e₁ e₂ e₃ x y h = absurd cc
    by_tests false true true below e₁ e₂ e₃ x y h =
        let same : clean (trim_space raw) ≡ abs = cc in (trim_space raw, same, rw (sym same) x)
    by_tests false false inside false e₁ e₂ e₃ x y h = absurd cc
    by_tests false false inside true e₁ e₂ e₃ x y h =
        let same : clean (repo_dir ++ codes "/" ++ trim_space raw) ≡ abs = cc in
        (
          repo_dir ++ codes "/" ++ trim_space raw,
          same,
          rw (sym same) (repo-workspace (clean (repo_dir ++ codes "/" ++ trim_space raw)) y),
        )

-- A path that a file tool accepts is the workspace or below it: after `/workspace` come names
-- only, none of them empty, "." or "..".
pub repo_path-contained :
    (raw abs : Text)
    → repo_path raw ≡ ok abs
    → (names : List Text) × All IsName names × (abs ≡ path_of (workspace_name ∷ names))
unfolding is_within text_eq has_prefix path_of
repo_path-contained raw abs h =
    let (p, cleaned, inside) = repo_path-cleaned raw abs h in
    elim (clean-names p) [
      | inl root ↦
          let at_root : abs ≡ codes "/" = sym cleaned ∙ root in
          absurd
            (let wrong : is_within workspace_path (codes "/") ≡ true = rw at_root at inside in cc)
      | inr (ss, all, shown) ↦
          let rendered : abs ≡ path_of ss = sym cleaned ∙ shown in
          elim (Bool-cases (text_eq abs workspace_path)) [
            | inl e ↦ ([], tt, text_eq_sound abs workspace_path e)
            | inr miss ↦
                let below : has_prefix abs (workspace_path ++ codes "/") ≡ true =
                  rw miss at inside in
                let (names, known, same) = below_workspace ss all (rw rendered at below) in
                (names, known, rendered ∙ same)
          ]
    ]
