-- ===== src/Tools/Github.antt =====
-- internal/tools/git.go: create_pr. GitHub's answers, the parts of a URL that `url.Parse` gives, and
-- the decoding of JSON are parameters; a request is held with its decoded payload.
use doota.Prelude.{
  ℕ, Bool, true, false, not, ◌||◌, List, [], ◌∷◌, ◌++◌, Option, none, some, ◌==◌, if◌then◌else◌,
}
use doota.Prelude.Text.{
  Text, codes, decimal, is_empty, trim_space, drop_left, drop_right, has_prefix, contains_part,
  text_eq, split_at_char,
}
use doota.Store.Query.{Error, Result, ok, err, error_message, refused}
use doota.Web.Session.{cut}
use doota.Tools.Result.{ToolResult, fail, success, no_display, pull_display}
use doota.Tools.Truncate.{clip_middle}

-- `strings.TrimSuffix`, for a suffix that is not empty.
unfoldable pub trim_suffix : Text → Text → Text
unfolding text_eq
trim_suffix suffix [] = []
trim_suffix suffix (c ∷ cs) =
    let rest = trim_suffix suffix cs in if text_eq (c ∷ cs) suffix then [] else c ∷ rest

abbrev pub is_slash : ℕ → Bool
is_slash c = c == b'/'

unfoldable pub not_worked_out : Text → Error
not_worked_out remote =
    refused (codes "could not work out the owner and repository from \"" ++ remote ++ codes "\".")

-- The last lines of `parseGitHubRepo`, on the path.
unfoldable pub owner_and_repo : Text → List Text → Result (Text × Text)
unfolding is_empty not_worked_out
owner_and_repo remote [] = err (not_worked_out remote)
owner_and_repo remote (owner ∷ []) = err (not_worked_out remote)
owner_and_repo remote (owner ∷ repo ∷ _) =
    if is_empty owner || is_empty repo then err (not_worked_out remote) else ok (owner, repo)

unfoldable pub path_parts : Text → List Text
unfolding drop_left drop_right split_at_char
path_parts p = split_at_char b'/' (drop_right is_slash (drop_left is_slash p))

-- `strings.TrimPrefix(path, "/")`.
abbrev pub drop_slash : Text → Text
drop_slash [] = []
drop_slash (c ∷ cs) = if c == b'/' then cs else c ∷ cs

-- `url_parse` gives the host and the path.
module _ (url_parse : Text → Option (Text × Text)) where
  -- `parseGitHubRepo`.
  unfoldable pub parse_github_repo : Text → Result (Text × Text)
  unfolding trim_suffix has_prefix contains_part cut owner_and_repo path_parts not_worked_out
  parse_github_repo remote =
      let trimmed = trim_suffix (codes ".git") (trim_space remote) in
      if has_prefix trimmed (codes "git@")
      then elim (cut b':' trimmed) [
        | none ↦ err (not_worked_out remote)
        | some (_, rest) ↦ owner_and_repo remote (path_parts rest)
      ]
      else if contains_part (codes "://") trimmed
      then elim (url_parse trimmed) [
        | none ↦
            err (refused (codes "could not parse the repository URL \"" ++ remote ++ codes "\"."))
        | some (host, p) ↦
            if contains_part (codes "github.com") host
            then owner_and_repo remote (path_parts (drop_slash p))
            else err (
                refused (
                  codes "\""
                  ++ host
                  ++ codes
                      "\" is not a github.com repository, so there is no pull request API to call."))
      ]
      else err (
          refused (
            codes "\""
            ++ remote
            ++ codes "\" is a local path, not a GitHub repository, so there is nowhere to open a "
            ++ codes "pull request."))

-- The two calls: the open pull requests of the work branch, and a new one.
pub data GithubRequest : Type 0 where
  lists_open : Text → Text → GithubRequest
  creates : Text → Text → Text → Text → Text → GithubRequest

-- What is behind `githubCall` and `json.Unmarshal`: an answer may depend on the earlier calls.
pub record Github : Type 0 where
  pub call : GithubRequest → List GithubRequest → Result (ℕ × Text)
  -- The URL of the first pull request in a list; `none` for an empty list and for no list.
  pub first_url : Text → Option Text
  -- The URL and the number in the answer to a creation; `none` where it cannot be decoded.
  pub created : Text → Option (Text × ℕ)

module _ (hub : Github) where
  -- `findOpenPR`, empty for every failure.
  unfoldable pub find_open_pr : Text → Text → List GithubRequest → Text
  find_open_pr owner repo sent = elim (hub.call (lists_open owner repo) sent) [
    | err e ↦ []
    | ok (status, body) ↦
        if not (status == 200) then [] else elim (hub.first_url body) [ none ↦ [] | some url ↦ url ]
  ]

  -- The answer to the creation.
  unfoldable pub created_result : Result (ℕ × Text) → ToolResult
  unfolding is_empty clip_middle
  created_result (err e) = record {
    content =
        codes "Could not reach GitHub to open a pull request: "
        ++ error_message e
        ++ codes "\n\nThe push itself succeeded, so this is not blocking — report it and carry on.";
    display = pull_display none none none false;
    is_error = true;
  }
  created_result (ok (status, body)) =
      if status == 201
      then elim (hub.created body) [
        | none ↦
            success (codes "Pull request created, but the response did not include a URL.")
              no_display
        | some (url, n) ↦
            if is_empty url
            then success (codes "Pull request created, but the response did not include a URL.")
                no_display
            else success (codes "Opened pull request #" ++ decimal n ++ codes ": " ++ url)
                (pull_display (some url) (some n) none true)
      ]
      else let hint =
          if status == 401 || status == 403
          then codes " The token was rejected — it may lack repo scope or have expired. Do not "
            ++ codes "retry; report it."
          else [] in
        record {
          content =
              codes "Could not open a pull request (HTTP "
              ++ decimal status
              ++ codes ")."
              ++ hint
              ++ codes " The push itself succeeded, so this is not blocking — report it and carry "
              ++ codes "on.\n\n"
              ++ clip_middle body 4096;
          display = pull_display none none (some status) false;
          is_error = true;
        }

  -- `createPRTool.Execute`, with the project's remote and default branch and the token; it never
  -- ends in an error of the infrastructure. The requests are kept, newest first.
  unfoldable pub create_pr :
      (Text → Option (Text × Text))
      → Text
      → Text
      → Text
      → Text
      → Text
      → List GithubRequest
      → ToolResult × List GithubRequest
  unfolding is_empty parse_github_repo find_open_pr created_result
  create_pr url_parse remote base token title_arg body sent =
      let title = trim_space title_arg in
      if is_empty title
      then (fail (codes "title is required."), sent)
      else if is_empty token
      then (
        fail (
            codes "no GitHub token is configured, so a pull request cannot be opened. The push "
            ++ codes "already succeeded; tell the user to open it themselves, or to set a GitHub "
            ++ codes
                "token on the Settings screen — it takes effect immediately, with no redeploy."),
        sent,
      )
      else elim (parse_github_repo url_parse remote) [
        | err e ↦ (fail (error_message e), sent)
        | ok (owner, repo) ↦
            let existing = find_open_pr owner repo sent in
            let asked = lists_open owner repo ∷ sent in
            if not (is_empty existing)
            then (
              success
                  (codes "A pull request for doot is already open: "
                    ++ existing
                    ++ codes "\nThe new commits are on it already.")
                  (pull_display (some existing) none none false),
              asked,
            )
            else let request = creates owner repo title body base in
              (created_result (hub.call request asked), request ∷ asked)
      ]
