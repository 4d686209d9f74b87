-- ===== src/Tools/Requests.antt =====
-- What create_pr asks of GitHub.
use doota.Prelude.{◌≡◌, ◌⊎◌, refl, true, false, List, ◌∷◌, Option, Bool-cases, inl, inr}
use doota.Prelude.Text.{Text, trim_space, is_empty}
use doota.Store.Query.{Error, Result, ok, err}
use doota.Tools.Result.{ToolResult}
use doota.Tools.Github.{
  Github, GithubRequest, lists_open, creates, find_open_pr, create_pr, parse_github_repo,
}

-- The requests that a call of create_pr makes for a repository, given what was found open.
abbrev pub Asks :
    Github
    → Text
    → Text
    → Text
    → Text
    → List GithubRequest
    → Text × Text
    → ToolResult × List GithubRequest
    → Type 0
Asks hub title body base remote sent (owner, repo) r =
    let asked = lists_open owner repo ∷ sent in
    ((is_empty (find_open_pr hub owner repo sent) ≡ false) × (r.0.is_error ≡ false) × (r.1 ≡ asked))
    ⊎ ((is_empty (find_open_pr hub owner repo sent) ≡ true)
        × (r.1 ≡ creates owner repo title body base ∷ asked))

repo_cases :
    (r : Result (Text × Text)) → ((e : Error) × (r ≡ err e)) ⊎ ((p : Text × Text) × (r ≡ ok p))
repo_cases (err e) = inl (e, refl)
repo_cases (ok p) = inr (p, refl)

-- create_pr asks GitHub for nothing unless it has a title, a token and a remote that names an owner
-- and a repository; then it asks once for the open pull requests of that repository, reports the
-- first as a success, and asks for a new one, once, exactly where none was found.
pub create_pr-Asks :
    (hub : Github) (url_parse : Text → Option (Text × Text)) (remote base token title body : Text)
    (sent : List GithubRequest)
    → let r = create_pr hub url_parse remote base token title body sent in
      ((r.0.is_error ≡ true) × (r.1 ≡ sent))
      ⊎ ((is_empty (trim_space title) ≡ false)
          × (is_empty token ≡ false)
          × ((names : Text × Text) × (parse_github_repo url_parse remote ≡ ok names)
              × Asks hub (trim_space title) body base remote sent names r))
unfolding create_pr
create_pr-Asks hub url_parse remote base token title body sent =
    elim (Bool-cases (is_empty (trim_space title))) [
      | inl untitled ↦ inl (rw untitled (refl, refl))
      | inr titled ↦ elim (Bool-cases (is_empty token)) [
        | inl tokenless ↦ inl (rw (titled, tokenless) (refl, refl))
        | inr tokened ↦ elim (repo_cases (parse_github_repo url_parse remote)) [
          | inl (e, same) ↦ inl (rw (titled, tokened, same) (refl, refl))
          | inr (names, same) ↦ inr (
            titled,
            tokened,
            (
              names,
              same,
              elim (Bool-cases (is_empty (find_open_pr hub names.0 names.1 sent))) [
                | inl found ↦ inr (found, rw (titled, tokened, same, found) refl)
                | inr open_one ↦ inl (
                  open_one,
                  rw (titled, tokened, same, open_one) refl,
                  rw (titled, tokened, same, open_one) refl,
                )
              ],
            ),
          )
        ]
      ]
    ]
