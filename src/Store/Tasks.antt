-- ===== src/Store/Tasks.antt =====
-- The tasks of a board: those of a fresh draft, and the change of one.
use doota.Prelude.{
  ◌++◌, ℕ, suc, ◌≡◌, refl, ap, sym, Bool-cases, Option-cases, inl, inr, Bool, true, false, List, [],
  ◌∷◌, some, ◌==◌, if◌then◌else◌, first_row, map,
}
use doota.Prelude.Text.{Text, codes, is_empty, trim_space, decimal}
use doota.Store.Schema.{Task, TaskStatus, Scratchpad, pending, draft}
use doota.Store.Query.{Result, ok, err, refused}
use doota.Store.Board.{empty_pad}
use doota.Store.Plan.{PlanDraft, draft_tasks, draft_pad, set_task}

-- The numbers from `n` on, one for each summary.
unfoldable pub numbers : ℕ → List Text → List ℕ
numbers n [] = []
numbers n (s ∷ ss) = n ∷ numbers (suc n) ss

abbrev pub number_of : Task → ℕ
number_of t = t.n

abbrev pub summary_of : Task → Text
summary_of t = t.summary

abbrev pub Drafted : ℕ → List Text → List Task → Type 0
Drafted n ss ts =
    (map number_of ts ≡ numbers n ss)
    × (map summary_of ts ≡ map trim_space ss)
    × (map (λ (t : Task). t.status) ts ≡ map (λ _. pending) ss)

draft_tasks-Drafted :
    (n : ℕ) (ss : List Text) (ts : List Task) → draft_tasks n ss ≡ ok ts → Drafted n ss ts
unfolding draft_tasks numbers
draft_tasks-Drafted n [] ts h = let same : [] ≡ ts = cc in rw (sym same) (refl, refl, refl)
draft_tasks-Drafted n (s ∷ ss) ts h =
    blank (is_empty (trim_space s)) (draft_tasks (suc n) ss) (draft_tasks-Drafted (suc n) ss) h
  where
    blank :
        (b : Bool) (rest : Result (List Task))
        → ((ts : List Task) → rest ≡ ok ts → Drafted (suc n) ss ts)
        → (if b
            then err (refused (codes "task " ++ decimal n ++ codes " needs a summary"))
            else elim rest as (λ _. Result (List Task)) [
              | err e ↦ err e
              | ok ts ↦
                  ok (record { n = n; summary = trim_space s; status = pending; note = [] } ∷ ts)
            ])
          ≡ ok ts
        → Drafted n (s ∷ ss) ts
    blank true rest next h = cc
    blank false (err e) next h = cc
    blank false (ok us) next h =
        let same : record { n = n; summary = trim_space s; status = pending; note = [] } ∷ us ≡ ts =
          cc in
        let (a, b, c) = next us refl in
        rw (sym same) (ap (◌∷◌ n) a, ap (◌∷◌ (trim_space s)) b, ap (◌∷◌ pending) c)

-- A draft that is accepted numbers its tasks from 1 in the order of the request, each with its
-- trimmed summary and still to do.
pub draft_pad-Drafted :
    (d : PlanDraft) (pad : Scratchpad) → draft_pad d ≡ ok pad → Drafted 1 d.tasks pad.tasks
unfolding draft_pad
draft_pad-Drafted d pad h =
    checked (is_empty (trim_space d.title)) (is_empty d.tasks) (draft_tasks 1 d.tasks)
      (draft_tasks-Drafted 1 d.tasks) h
  where
    checked :
        (no_title no_tasks : Bool) (drafted : Result (List Task))
        → ((ts : List Task) → drafted ≡ ok ts → Drafted 1 d.tasks ts)
        → (if no_title
            then err (refused (codes "a plan needs a title"))
            else if no_tasks
            then err (refused (codes "a plan needs at least one task"))
            else elim drafted as (λ _. Result Scratchpad) [
              | err e ↦ err e
              | ok ts ↦ ok (record empty_pad {
                title = trim_space d.title;
                status = some draft;
                spec = d.spec;
                tasks = ts;
              })
            ])
          ≡ ok pad
        → Drafted 1 d.tasks pad.tasks
    checked true no_tasks drafted next h = cc
    checked false true drafted next h = cc
    checked false false (err e) next h = cc
    checked false false (ok ts) next h =
        let same : record empty_pad {
          title = trim_space d.title;
          status = some draft;
          spec = d.spec;
          tasks = ts;
        }
            ≡ pad =
          cc in
        rw (sym (ap (λ (p : Scratchpad). p.tasks) same)) (next ts refl)

-- Changing task `n` keeps every number and summary, and sets the status and the trimmed note of
-- the first task with that number.
pub set_task-first :
    (n : ℕ) (status : TaskStatus) (note : Text) (ts us : List Task) (t : Task)
    → set_task n status note ts ≡ some us
    → first_row (λ (t : Task). t.n == n) ts ≡ some t
    → (first_row (λ (t : Task). t.n == n) us
        ≡ some (record t { status = status; note = trim_space note }))
      × (map number_of us ≡ map number_of ts)
      × (map summary_of us ≡ map summary_of ts)
unfolding set_task first_row
set_task-first n status note [] us t h k = cc
set_task-first n status note (x ∷ xs) us t h k = elim (Bool-cases (x.n == n)) [
  | inl hit ↦
      let changed : record x { status = status; note = trim_space note } ∷ xs ≡ us = cc in
      let same : x ≡ t = cc in
      rw (sym changed, hit)
        (
          ap (λ (t : Task). some (record t { status = status; note = trim_space note })) same,
          refl,
          refl,
        )
  | inr miss ↦ elim (Option-cases (set_task n status note xs)) [
    | inl gone ↦ cc
    | inr (vs, rest) ↦
        let changed : x ∷ vs ≡ us = cc in
        let (a, b, c) = set_task-first n status note xs vs t rest (rw miss at k) in
        rw (sym changed, miss) (a, ap (◌∷◌ x.n) b, ap (◌∷◌ x.summary) c)
  ]
]
