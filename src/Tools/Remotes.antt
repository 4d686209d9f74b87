-- ===== src/Tools/Remotes.antt =====
-- The owner and the repository that a remote names.
use Prim.Native.Nat.{ℕ}
use mathlib.Core.List.{reverse-append}
use doota.Prelude.{
  ◌≡◌, refl, sym, ap, ◌∙◌, true, false, [], ◌∷◌, ◌++◌, Option, some, arith, All, All-append,
  All-reverse, exists_row, length, length-append, reverse, reverse-cons, reverse-reverse,
  append_assoc, Bool-cases, inl, inr,
}
use doota.Prelude.Text.{
  Text, codes, is_empty, is_space, trim_space, drop_left, drop_right, has_prefix, contains_part,
  text_eq, text_eq_refl, text_eq_sound, split_at_char,
}
use doota.Prelude.Trim.{HasNoSpace, trim_space-HasNoSpace, exists_row-HasNoSpace}
use doota.Store.Query.{ok}
use doota.Web.Session.{cut}
use doota.Tools.Github.{trim_suffix, is_slash, owner_and_repo, path_parts, parse_github_repo}

-- A name of GitHub: not empty, without a slash and without spaces.
pub record IsRepoName (s : Text) : Type 0 where
  pub full : is_empty s ≡ false
  pub one : All (λ c. is_slash c ≡ false) s
  pub no_space : HasNoSpace s

text_eq-longer : (c : ℕ) (x s : Text) → text_eq (c ∷ x ++ s) s ≡ false
text_eq-longer c x s = elim (Bool-cases (text_eq (c ∷ x ++ s) s)) [
  | inr differ ↦ differ
  | inl same ↦
      let eq : length (c ∷ x ++ s) ≡ length s = ap length (text_eq_sound (c ∷ x ++ s) s same) in
      absurd (omega (arith, eq, length-append x s))
]

trim_suffix-append : (c : ℕ) (s x : Text) → trim_suffix (c ∷ s) (x ++ c ∷ s) ≡ x
unfolding trim_suffix
trim_suffix-append c s [] = rw (text_eq_refl (c ∷ s))
trim_suffix-append c s (d ∷ x) =
    rw (text_eq-longer d x (c ∷ s)) (ap (◌∷◌ d) (trim_suffix-append c s x))

abbrev NoSlash : Text → Type 0
NoSlash t = All (λ c. is_slash c ≡ false) t

snoc-is_empty : (t : Text) (c : ℕ) → is_empty (t ++ c ∷ []) ≡ false
unfolding is_empty
snoc-is_empty [] c = refl
snoc-is_empty (d ∷ t) c = refl

reverse-is_empty : (t : Text) → is_empty t ≡ false → is_empty (reverse t) ≡ false
unfolding is_empty
reverse-is_empty [] h = h
reverse-is_empty (c ∷ t) h = rw (reverse-cons c t) (snoc-is_empty (reverse t) c)

drop_left-NoSlash :
    (s t : Text) → is_empty s ≡ false → NoSlash s → drop_left is_slash (s ++ t) ≡ s ++ t
unfolding drop_left is_empty
drop_left-NoSlash [] t e h = cc
drop_left-NoSlash (c ∷ s) t e h = rw h.0

drop_right-NoSlash :
    (s t : Text) → is_empty t ≡ false → NoSlash t → drop_right is_slash (s ++ t) ≡ s ++ t
unfolding drop_right
drop_right-NoSlash s t e h =
    ap (λ u. reverse (drop_left is_slash u)) (reverse-append s t)
    ∙ ap reverse
        (drop_left-NoSlash (reverse t) (reverse s) (reverse-is_empty t e) (All-reverse _ t h))
    ∙ ap reverse (sym (reverse-append s t))
    ∙ reverse-reverse (s ++ t)

split_at_char-one : (s : Text) → NoSlash s → split_at_char b'/' s ≡ s ∷ []
unfolding split_at_char
split_at_char-one [] h = refl
split_at_char-one (c ∷ s) h = rw (h.0, split_at_char-one s h.1)

split_at_char-two :
    (s t : Text) → NoSlash s → NoSlash t → split_at_char b'/' (s ++ b'/' ∷ t) ≡ s ∷ t ∷ []
unfolding split_at_char
split_at_char-two [] t h k = rw (split_at_char-one t k)
split_at_char-two (c ∷ s) t h k = rw (h.0, split_at_char-two s t h.1 k)

path_parts-names :
    (owner repo : Text)
    → IsRepoName owner
    → IsRepoName repo
    → path_parts (owner ++ b'/' ∷ repo) ≡ owner ∷ repo ∷ []
unfolding path_parts
path_parts-names owner repo h k =
    ap (λ u. split_at_char b'/' (drop_right is_slash u))
      (drop_left-NoSlash owner (b'/' ∷ repo) h.full h.one)
    ∙ ap (λ u. split_at_char b'/' (drop_right is_slash u))
        (sym (append_assoc owner (b'/' ∷ []) repo))
    ∙ ap (split_at_char b'/') (drop_right-NoSlash (owner ++ b'/' ∷ []) repo k.full k.one)
    ∙ ap (split_at_char b'/') (append_assoc owner (b'/' ∷ []) repo)
    ∙ split_at_char-two owner repo h.one k.one

owner_and_repo-names :
    (remote owner repo : Text)
    → IsRepoName owner
    → IsRepoName repo
    → owner_and_repo remote (owner ∷ repo ∷ []) ≡ ok (owner, repo)
unfolding owner_and_repo
owner_and_repo-names remote owner repo h k = rw (h.full, k.full)

abbrev pub ssh_remote : Text → Text → Text
ssh_remote owner repo = codes "git@github.com:" ++ (owner ++ b'/' ∷ repo)

abbrev pub https_remote : Text → Text → Text
https_remote owner repo = codes "https://github.com/" ++ (owner ++ b'/' ∷ repo)

dot_git_no_space : exists_row is_space (codes ".git") ≡ false
unfolding exists_row is_space
dot_git_no_space = refl

ssh_no_space : exists_row is_space (codes "git@github.com:") ≡ false
unfolding exists_row is_space
ssh_no_space = refl

https_no_space : exists_row is_space (codes "https://github.com/") ≡ false
unfolding exists_row is_space
https_no_space = refl

names-HasNoSpace :
    (start owner repo : Text)
    → exists_row is_space start ≡ false
    → IsRepoName owner
    → IsRepoName repo
    → HasNoSpace (start ++ (owner ++ b'/' ∷ repo))
unfolding is_space
names-HasNoSpace start owner repo e h k =
    All-append _ start (owner ++ b'/' ∷ repo) (exists_row-HasNoSpace start e)
      (All-append _ owner (b'/' ∷ repo) h.no_space (refl, k.no_space))

trim_suffix-remote :
    (start : Text)
    → HasNoSpace start
    → trim_suffix (codes ".git") (trim_space (start ++ codes ".git")) ≡ start
trim_suffix-remote start n =
    ap (trim_suffix (codes ".git")) (
      trim_space-HasNoSpace (start ++ codes ".git") (
        All-append _ start (codes ".git") n
          (exists_row-HasNoSpace (codes ".git") dot_git_no_space)))
    ∙ trim_suffix-append b'.' (codes "git") start

-- No suffix of a text that has a slash is the ending that is trimmed.
has_slash : (x y : Text) → exists_row is_slash (x ++ b'/' ∷ y) ≡ true
unfolding exists_row
has_slash [] y = refl
has_slash (c ∷ x) y = ground (arith, has_slash x y)

text_eq-slash : (x y : Text) → text_eq (x ++ b'/' ∷ y) (codes ".git") ≡ false
unfolding exists_row
text_eq-slash x y = elim (Bool-cases (text_eq (x ++ b'/' ∷ y) (codes ".git"))) [
  | inr differ ↦ differ
  | inl same ↦
      let wrong : false ≡ true =
        sym (ap (exists_row is_slash) (text_eq_sound (x ++ b'/' ∷ y) (codes ".git") same))
        ∙ has_slash x y in
      absurd cc
]

trim_suffix-step :
    (s : Text) (c : ℕ) (cs : Text)
    → text_eq (c ∷ cs) s ≡ false
    → trim_suffix s (c ∷ cs) ≡ c ∷ trim_suffix s cs
unfolding trim_suffix
trim_suffix-step s c cs differ = rw differ refl

trim_suffix-slash :
    (x y : Text)
    → trim_suffix (codes ".git") (x ++ b'/' ∷ y) ≡ x ++ b'/' ∷ trim_suffix (codes ".git") y
trim_suffix-slash [] y = trim_suffix-step (codes ".git") b'/' y (text_eq-slash [] y)
trim_suffix-slash (c ∷ x) y =
    trim_suffix-step (codes ".git") c (x ++ b'/' ∷ y) (text_eq-slash (c ∷ x) y)
    ∙ ap (◌∷◌ c) (trim_suffix-slash x y)

trim_suffix-plain :
    (start owner repo : Text)
    → HasNoSpace (start ++ (owner ++ b'/' ∷ repo))
    → trim_suffix (codes ".git") repo ≡ repo
    → trim_suffix (codes ".git") (trim_space (start ++ (owner ++ b'/' ∷ repo)))
      ≡ start ++ (owner ++ b'/' ∷ repo)
trim_suffix-plain start owner repo n kept =
    ap (trim_suffix (codes ".git")) (
      trim_space-HasNoSpace (start ++ (owner ++ b'/' ∷ repo)) n
      ∙ sym (append_assoc start owner (b'/' ∷ repo)))
    ∙ trim_suffix-slash (start ++ owner) repo
    ∙ ap (λ t. (start ++ owner) ++ b'/' ∷ t) kept
    ∙ append_assoc start owner (b'/' ∷ repo)

-- The rest of `parseGitHubRepo`, once a remote has been trimmed to one of the two forms.
parse_ssh :
    (url_parse : Text → Option (Text × Text)) (remote owner repo : Text)
    → IsRepoName owner
    → IsRepoName repo
    → trim_suffix (codes ".git") (trim_space remote) ≡ ssh_remote owner repo
    → parse_github_repo url_parse remote ≡ ok (owner, repo)
unfolding parse_github_repo has_prefix cut
parse_ssh url_parse remote owner repo h k clean =
    rw (clean, path_parts-names owner repo h k) (owner_and_repo-names remote owner repo h k)

parse_https :
    (url_parse : Text → Option (Text × Text)) (remote owner repo : Text)
    → IsRepoName owner
    → IsRepoName repo
    → url_parse (https_remote owner repo) ≡ some (codes "github.com", b'/' ∷ (owner ++ b'/' ∷ repo))
    → trim_suffix (codes ".git") (trim_space remote) ≡ https_remote owner repo
    → parse_github_repo url_parse remote ≡ ok (owner, repo)
unfolding parse_github_repo has_prefix contains_part
parse_https url_parse remote owner repo h k parsed clean =
    rw (clean, parsed, path_parts-names owner repo h k) (owner_and_repo-names remote owner repo h k)

-- Both forms of a GitHub remote, the SSH one and the HTTPS one, with `.git` at the end and without,
-- give back the owner and the repository that they were built from, where these are not empty and
-- have no slash and no space, the repository's name does not itself end in `.git`, and the URL's
-- host and path are what stands after its scheme.
pub parse_github_repo-names :
    (url_parse : Text → Option (Text × Text)) (owner repo : Text)
    → IsRepoName owner
    → IsRepoName repo
    → trim_suffix (codes ".git") repo ≡ repo
    → url_parse (https_remote owner repo) ≡ some (codes "github.com", b'/' ∷ (owner ++ b'/' ∷ repo))
    → (parse_github_repo url_parse (ssh_remote owner repo ++ codes ".git") ≡ ok (owner, repo))
      × (parse_github_repo url_parse (https_remote owner repo ++ codes ".git") ≡ ok (owner, repo))
      × (parse_github_repo url_parse (ssh_remote owner repo) ≡ ok (owner, repo))
      × (parse_github_repo url_parse (https_remote owner repo) ≡ ok (owner, repo))
parse_github_repo-names url_parse owner repo h k kept parsed =
    let ssh = names-HasNoSpace (codes "git@github.com:") owner repo ssh_no_space h k in
    let https = names-HasNoSpace (codes "https://github.com/") owner repo https_no_space h k in
    (
      parse_ssh url_parse _ owner repo h k (trim_suffix-remote (ssh_remote owner repo) ssh),
      parse_https url_parse _ owner repo h k parsed
          (trim_suffix-remote (https_remote owner repo) https),
      parse_ssh url_parse _ owner repo h k
          (trim_suffix-plain (codes "git@github.com:") owner repo ssh kept),
      parse_https url_parse _ owner repo h k parsed
          (trim_suffix-plain (codes "https://github.com/") owner repo https kept),
    )
