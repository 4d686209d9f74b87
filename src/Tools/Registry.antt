-- ===== src/Tools/Registry.antt =====
-- internal/tools/registry.go: the registries by their tools' names, and the log of every execution.
use Prim.Native.String.{String}
use text.Mathlib.Text.{◌==◌ as str_eq}
use doota.Prelude.{
  ℕ, Bool, true, false, List, [], ◌∷◌, ◌++◌, some, if◌then◌else◌, ltb, ◌==◌, ◌&&◌, ◌||◌,
}
use doota.Prelude.Text.{Text, codes, join}
use doota.Store.Schema.{Db, ToolLog}
use doota.Store.Query.{Result, ok, err, error_message}
use doota.Store.Transcript.{log_tool_call}
use doota.Tools.Result.{ToolResult, fail}

abbrev pub read_only : List String
read_only = "read_file" ∷ "list_dir" ∷ "search" ∷ "read_logs" ∷ "git_diff" ∷ []

abbrev pub write_tools : List String
write_tools =
    "write_file" ∷ "edit_file" ∷ "bash" ∷ "bash_bg" ∷ "stop_bg" ∷ "http_check" ∷ "expose_port"
    ∷ "git_commit" ∷ []

abbrev pub control_tools : List String
control_tools =
    "create_plan" ∷ "update_task" ∷ "review" ∷ "ui_review" ∷ "ask_human" ∷ "remember"
    ∷ "record_orientation" ∷ "done" ∷ []

abbrev pub primary : List String
primary = read_only ++ (write_tools ++ control_tools)

abbrev pub reviewer : List String
reviewer = read_only

abbrev pub ui_reviewer : List String
ui_reviewer = read_only ++ "screenshot" ∷ []

abbrev pub shipping : List String
shipping = "git_push" ∷ "create_pr" ∷ []

-- `Registry.Get`.
unfoldable pub has_tool : List String → String → Bool
has_tool [] name = false
has_tool (t ∷ ts) name = let rest = has_tool ts name in if str_eq t name then true else rest

-- `NewRegistry` panics (`false`) on a name that is given twice.
unfoldable pub no_duplicates : List String → Bool
unfolding has_tool
no_duplicates [] = true
no_duplicates (t ∷ ts) = let rest = no_duplicates ts in if has_tool ts t then false else rest

-- The row that `record` writes: of an infrastructure error, its text.
unfoldable pub log_row : ℕ → ℕ → String → Result ToolResult → ToolLog
log_row rid mid name (ok r) = record {
  run = some rid;
  message = some mid;
  tool_name = name;
  content = r.content;
  is_error = r.is_error;
}
log_row rid mid name (err e) = record {
  run = some rid;
  message = some mid;
  tool_name = name;
  content = error_message e;
  is_error = true;
}

-- `<` on strings, by their code points.
unfoldable pub text_lt : Text → Text → Bool
text_lt s [] = false
text_lt [] (_ ∷ _) = true
text_lt (a ∷ s) (b ∷ t) = ltb a b || (a == b && text_lt s t)

unfoldable pub insert_name : Text → List Text → List Text
unfolding text_lt
insert_name n [] = n ∷ []
insert_name n (m ∷ ms) = let rest = insert_name n ms in if text_lt m n then m ∷ rest else n ∷ m ∷ ms

-- `Registry.Names`.
unfoldable pub sorted_names : List String → List Text
unfolding insert_name
sorted_names [] = []
sorted_names (t ∷ ts) = insert_name (codes t) (sorted_names ts)

-- What `Execute` returns, for a name that `%q` prints as it is, where `reply` is what the tool
-- of that name did.
unfoldable pub looked_up : List String → String → Result ToolResult → Result ToolResult
unfolding has_tool sorted_names
looked_up registry name reply =
    if has_tool registry name
    then reply
    else ok (
        fail (
          codes "no tool named \""
          ++ codes name
          ++ codes "\". Available: ["
          ++ join (codes " ") (sorted_names registry)
          ++ codes "]"))

-- `Registry.Execute` on the database: every execution leaves a row.
unfoldable pub execute :
    List String → ℕ → ℕ → String → Result ToolResult → Db → Result ToolResult × Db
unfolding looked_up log_row sorted_names
execute registry rid mid name reply db = (
  looked_up registry name reply,
  log_tool_call (log_row rid mid name (looked_up registry name reply)) db,
)
