-- ===== src/Agent/Gates.antt =====
-- What holds a ship back, and what does not.
use Prim.Native.String.{String}
use text.Mathlib.Text.{◌==◌ as str_eq}
use text.Mathlib.TextEquality.{eq_iff}
use doota.Prelude.{
  ◌⊎◌, ◌↔◌, sym, eq_self, ℕ, suc, ◌≡◌, refl, Bool, true, false, not, List, [], ◌∷◌, Option, none,
  some, arith, if◌then◌else◌, Bool-cases, inl, inr, count_rows, exists_row,
}
use doota.Prelude.Text.{Text, is_empty, trim_space, codes}
use doota.Store.Schema.{Db, Run, Message}
use doota.Store.Query.{Result, ok, err, wrapped, append_message_tx}
use doota.Store.Transcript.{
  append_message, log_tool_call, logged_for, tool_outcomes, review_outcomes, ui_review_outcomes,
}
use doota.Tools.Result.{ToolResult}
use doota.Tools.Registry.{
  execute, primary, shipping, reviewer, ui_reviewer, has_tool, log_row, looked_up,
}
use doota.Agent.State.{Service, store}
use doota.Agent.Outside.{Outside}
use doota.Agent.Ship.{
  Gate, pass, unreviewed, inconclusive, unseen, unseen_verdict, review_gate, ui_gate, gate,
  gate_text, ship, read_diff, refuse, run_tool, dirty_text, files_of, push_and_finish,
  touched_files,
}

-- What a ship did to the run: none where it goes on.
abbrev pub transition_of : Result (Message × Option Run) → Option Run
transition_of (ok (_, t)) = t
transition_of (err _) = none

-- The ship left the run and the log of tools alone, so neither a push nor a pull request was made.
abbrev pub HeldBack : Service → Result (Message × Option Run) × Service → Type 0
HeldBack s (result, s') =
    (transition_of result ≡ none) × (s'.db.runs ≡ s.db.runs) × (s'.db.tool_logs ≡ s.db.tool_logs)

refuse-HeldBack :
    (o : Outside) (pid rid cid : ℕ) (content summary : Text) (s : Service)
    → HeldBack s (refuse o pid rid cid content summary s)
unfolding refuse store append_message append_message_tx
refuse-HeldBack o pid rid cid content summary s = (refl, refl, refl)

choice-HeldBack :
    (b : Bool) (s : Service) (x y : Result (Message × Option Run) × Service)
    → HeldBack s x
    → HeldBack s y
    → HeldBack s (if b then x else y)
choice-HeldBack true s x y hx hy = hx
choice-HeldBack false s x y hx hy = hy

-- Without a review call in the run's log, nothing is pushed and the run goes on, whatever the
-- worktree holds.
pub ship-unreviewed :
    (o : Outside) (pid rid mid cid : ℕ) (summary : Text) (s : Service)
    → (review_outcomes rid s.db).0 ≡ 0
    → HeldBack s (ship o pid rid mid cid summary s)
unfolding ship read_diff gate review_gate
ship-unreviewed o pid rid mid cid summary s none_yet = checked (o.worktree s)
  where
    stopped : review_gate (review_outcomes rid s.db) ≡ unreviewed
    stopped = rw none_yet refl

    held :
        (g : Gate)
        → g ≡ unreviewed
        → HeldBack s (
            let (touched, s₁) = elim g as (λ _. Option Text × Service) [
              | pass ↦
                  let (reply, s₁) = run_tool reviewer rid mid "git_diff" o.diff_stat s in
                  (touched_files reply, s₁)
              | _ ↦ (none, s)
            ] in
            elim (elim g as (λ _. Gate) [
              | pass ↦ elim touched [
                | none ↦ pass
                | some _ ↦ ui_gate (ui_review_outcomes rid s₁.db)
              ]
              | h ↦ h
            ])
              as (λ _. Result (Message × Option Run) × Service) [
                | pass ↦ push_and_finish o pid rid mid cid summary s₁
                | h ↦ refuse o pid rid cid (gate_text h (files_of touched)) summary s₁
              ])
    held pass e = cc
    held unreviewed e = refuse-HeldBack o pid rid cid (gate_text unreviewed []) summary s
    held inconclusive e = refuse-HeldBack o pid rid cid (gate_text inconclusive []) summary s
    held unseen e = refuse-HeldBack o pid rid cid (gate_text unseen []) summary s
    held unseen_verdict e = refuse-HeldBack o pid rid cid (gate_text unseen_verdict []) summary s

    checked :
        (out : Result Text)
        → HeldBack s (elim out as (λ _. Result (Message × Option Run) × Service) [
          | err e ↦ (err (wrapped (codes "check worktree before shipping") e), s)
          | ok out ↦
              if not (is_empty (trim_space out))
              then refuse o pid rid cid dirty_text summary s
              else let (touched, s₁) = read_diff o rid mid s in
                elim (gate (review_outcomes rid s.db) touched (ui_review_outcomes rid s₁.db)) [
                  | pass ↦ push_and_finish o pid rid mid cid summary s₁
                  | g ↦ refuse o pid rid cid (gate_text g (files_of touched)) summary s₁
                ]
        ])
    checked (err e) = (refl, refl, refl)
    checked (ok out) =
        choice-HeldBack (not (is_empty (trim_space out))) s
          (refuse o pid rid cid dirty_text summary s) _
          (refuse-HeldBack o pid rid cid dirty_text summary s)
          (held (review_gate (review_outcomes rid s.db)) stopped)

-- A call of the review tool with well-formed arguments counts as a verdict before the reviewer has
-- been asked: the gate then lets the ship pass, whatever the log held before.
pub execute-review_gate :
    (rid mid : ℕ) (r : ToolResult) (db : Db)
    → r.is_error ≡ false
    → review_gate (review_outcomes rid (execute primary rid mid "review" (ok r) db).1) ≡ pass
unfolding execute log_tool_call review_outcomes tool_outcomes review_gate count_rows exists_row
    looked_up has_tool log_row
execute-review_gate rid mid r db fine = rw (eq_self rid, fine) (ground arith)

-- A ship passes both gates exactly where the review passes and, for a diff that touches a file that
-- renders, the review of the interface does.
pub gate-pass :
    (reviews ui_reviews : ℕ × Bool) (touched : Option Text)
    → (gate reviews touched ui_reviews ≡ pass)
      ↔ ((review_gate reviews ≡ pass) × ((touched ≡ none) ⊎ (ui_gate ui_reviews ≡ pass)))
unfolding gate
gate-pass reviews ui_reviews none = by_review (review_gate reviews)
  where
    by_review :
        (g : Gate)
        → let passed = elim g as (λ _. Gate) [ pass ↦ pass | h ↦ h ] in
          (passed ≡ pass
            → (g ≡ pass) × ((◌≡◌ {A = Option Text} none none) ⊎ (ui_gate ui_reviews ≡ pass)))
          × ((g ≡ pass) × ((◌≡◌ {A = Option Text} none none) ⊎ (ui_gate ui_reviews ≡ pass))
              → passed ≡ pass)
    by_review pass = (λ h. (h, inl refl), λ h. h.0)
    by_review unreviewed = (λ h. (h, inl refl), λ h. h.0)
    by_review inconclusive = (λ h. (h, inl refl), λ h. h.0)
    by_review unseen = (λ h. (h, inl refl), λ h. h.0)
    by_review unseen_verdict = (λ h. (h, inl refl), λ h. h.0)
gate-pass reviews ui_reviews (some f) = by_review (review_gate reviews)
  where
    by_review :
        (g : Gate)
        → let passed = elim g as (λ _. Gate) [ pass ↦ ui_gate ui_reviews | h ↦ h ] in
          (passed ≡ pass → (g ≡ pass) × ((some f ≡ none) ⊎ (ui_gate ui_reviews ≡ pass)))
          × ((g ≡ pass) × ((some f ≡ none) ⊎ (ui_gate ui_reviews ≡ pass)) → passed ≡ pass)
    by_review pass = (λ h. (refl, inr h), λ h. elim h.1 [ inl e ↦ cc | inr e ↦ e ])
    by_review unreviewed = (λ h. cc, λ h. h.0)
    by_review inconclusive = (λ h. cc, λ h. h.0)
    by_review unseen = (λ h. cc, λ h. h.0)
    by_review unseen_verdict = (λ h. cc, λ h. h.0)

-- A tool of the shipping registry is in no registry that a model can call.
pub shipping-has_tool :
    (name : String)
    → has_tool shipping name ≡ true
    → (has_tool primary name ≡ false) × (has_tool ui_reviewer name ≡ false)
unfolding has_tool
shipping-has_tool name h = elim (Bool-cases (str_eq "git_push" name)) [
  | inl e ↦ hidden ((eq_iff "git_push" name).0 e) (refl, refl)
  | inr miss ↦ hidden ((eq_iff "create_pr" name).0 (ground arith)) (refl, refl)
]
  where
    hidden :
        {t : String}
        → t ≡ name
        → (has_tool primary t ≡ false) × (has_tool ui_reviewer t ≡ false)
        → (has_tool primary name ≡ false) × (has_tool ui_reviewer name ≡ false)
    hidden e h = rw (sym e) h

-- Every execution, known tool or not, adds one row to the log, under the name of the call.
pub execute-count_rows :
    (registry : List String) (rid mid : ℕ) (name : String) (reply : Result ToolResult) (db : Db)
    → count_rows (logged_for rid name) (execute registry rid mid name reply db).1.tool_logs
      ≡ suc (count_rows (logged_for rid name) db.tool_logs)
unfolding execute log_tool_call log_row count_rows
execute-count_rows registry rid mid name reply db = by_reply (looked_up registry name reply)
  where
    by_reply :
        (reply : Result ToolResult)
        → count_rows (logged_for rid name) (log_row rid mid name reply ∷ db.tool_logs)
          ≡ suc (count_rows (logged_for rid name) db.tool_logs)
    by_reply (ok r) = rw (eq_self rid, (eq_iff name name).1 refl) (omega arith)
    by_reply (err e) = rw (eq_self rid, (eq_iff name name).1 refl) (omega arith)
