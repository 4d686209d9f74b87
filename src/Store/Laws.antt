-- ===== src/Store/Laws.antt =====
-- What the transitions of a run do, and which of them a run refuses.
use doota.Prelude.{
  ℕ, ◌≡◌, refl, ap, Bool, true, not, ◌&&◌, ◌||◌, List, [], ◌∷◌, Option, none, some, arith, ◌==◌,
  first_row, update_rows, exists_row, delete_rows, first_row-holds, where_rows, map, ◌⊎◌, inl, inr,
  Bool-cases, false, ◌∙◌, sym, suc,
}
use doota.Prelude.Text.{Text}
use doota.Store.Schema.{
  Run, RunState, Message, ToolCall, Db, is_active, is_running, is_awaiting, is_paused,
  is_plan_approval, is_tool,
}
use doota.Store.Query.{
  Tx, Error, ◌>>=◌, ok, err, not_found, unique_violation, found, update_run, append_message_tx,
}
use doota.Store.Run.{
  active_in, of_run, active_run, resume_run, request_pause, insert_run, create_run_with_message,
  answered, unanswered, resumed_row, is_plan_or_null, indexed_in, new_run, user_turn,
}
use doota.Store.Invariant.{Inv, indexed_in-active_in}
use doota.Store.Rows.{
  first_row-narrow, first_row-update, first_row-only, exists_row-same, first_row-exists_row,
  first_row-exists_row_hit, where_rows-update_rows_other, map-update_rows_same,
}

pub found_ok : {A : Type 0} (x : Option A) (a : A) → found x ≡ ok a → x ≡ some a
found_ok none a h = cc
found_ok (some b) a h = ground arith

module _ (p : Run → Bool) (f : Run → Run) (db : Db) where
  pub update_run-miss : first_row p db.runs ≡ none → update_run p f db ≡ err not_found
  unfolding update_run
  update_run-miss h = rw (h, update_run) refl

  pub update_run-hit :
      (r : Run)
      → first_row p db.runs ≡ some r
      → update_run p f db ≡ ok (f r, record db { runs = update_rows p f db.runs })
  unfolding update_run
  update_run-hit r h = rw (h, update_run) refl

abbrev resumable : ℕ → Run → Bool
resumable pid r =
    r.project == pid
    && (is_paused r.state || is_awaiting r.state)
    && not (is_awaiting r.state && is_plan_or_null r.awaiting_reason)

resumable-active : (pid : ℕ) (r : Run) → resumable pid r ≡ true → active_in pid r ≡ true
unfolding is_paused is_awaiting is_active
resumable-active pid r h = ground arith

running-active :
    (pid : ℕ) (r : Run) → (r.project == pid && is_running r.state) ≡ true → active_in pid r ≡ true
unfolding is_running is_active
running-active pid r h = ground arith

-- Resuming never starts a run that waits for its plan's approval: the project has no other run to
-- resume.
pub resume_run-plan_approval :
    (pid : ℕ) (db : Db) (r : Run)
    → Inv db
    → active_run pid db ≡ ok r
    → is_awaiting r.state ≡ true
    → is_plan_approval r.awaiting_reason ≡ true
    → resume_run pid db ≡ err not_found
unfolding resume_run active_run update_run is_plan_or_null
resume_run-plan_approval pid db r v h waits plan =
    update_run-miss (resumable pid) (resumed_row db.now) db (
      first_row-only (active_in pid) (resumable pid) db.runs r (resumable-active pid)
        (v.one_active pid) (found_ok _ r h) (ground arith))

bind-err :
    {A B : Type 0} (m : Tx A) (k : A → Tx B) (db : Db) (e : Error)
    → m db ≡ err e
    → (m >>= k) db ≡ err e
bind-err m k db e h = rw (h, ◌>>=◌) refl

bind-done :
    {A B : Type 0} (m : Tx A) (k : A → Tx B) (db : Db) (x : A × Db)
    → m db ≡ ok x
    → (m >>= k) db ≡ k x.0 x.1
bind-done m k db x h = rw (h, ◌>>=◌) refl

insert_run-refused :
    (pid : ℕ) (db : Db)
    → exists_row (indexed_in pid) db.runs ≡ true
    → insert_run pid db ≡ err unique_violation
unfolding insert_run
insert_run-refused pid db h = rw (h, insert_run) refl

-- A new run is the active one of its project, and no other project sees it.
module _ (pid : ℕ) (text : Text) (db : Db) where
  abbrev fresh_run : Run
  fresh_run = new_run db.serial pid db.now

  abbrev first_message : Message
  first_message = record {
    id = suc db.serial;
    turn = user_turn pid db.serial text;
    in_context = true;
    created_at = db.now;
  }

  abbrev with_run : Db
  with_run = record db {
    runs = fresh_run ∷ db.runs;
    messages = first_message ∷ db.messages;
    serial = suc (suc db.serial);
  }

  abbrev inserted : Db
  inserted = record db { runs = fresh_run ∷ db.runs; serial = suc db.serial }

  insert_run-done :
      exists_row (indexed_in pid) db.runs ≡ false → insert_run pid db ≡ ok (fresh_run, inserted)
  unfolding insert_run
  insert_run-done h = rw (h, insert_run) refl

  create_run_with_message-fresh :
      exists_row (indexed_in pid) db.runs ≡ false
      → create_run_with_message pid text db ≡ ok ((fresh_run, first_message), with_run)
  unfolding create_run_with_message append_message_tx new_run
  create_run_with_message-fresh h =
      bind-done (insert_run pid) _ db (fresh_run, inserted) (insert_run-done h)

  active_run-fresh : active_run pid with_run ≡ ok fresh_run
  unfolding active_run first_row new_run is_active
  active_run-fresh = ground arith

  active_run-fresh_other :
      (other : ℕ) → (pid == other) ≡ false → active_run other with_run ≡ active_run other db
  unfolding active_run first_row new_run
  active_run-fresh_other other apart = ground arith

-- A run is created exactly where the project has no active one. Beside an active run, whatever its
-- state, the index refuses the insertion. Otherwise the new run is the project's active run, the
-- text is its first message, in front of the messages there were, no project row changes, and every
-- other project has the active run that it had.
pub create_run_with_message-active :
    (pid : ℕ) (text : Text) (db : Db) (other : ℕ)
    → (pid == other) ≡ false
    → ((r : Run) × (active_run pid db ≡ ok r)
        × (create_run_with_message pid text db ≡ err unique_violation))
      ⊎ ((active_run pid db ≡ err not_found)
          × (r : Run) × (m : Message) × (db' : Db) × (create_run_with_message pid text db
              ≡ ok ((r, m), db'))
          × (active_run pid db' ≡ ok r)
          × (m.turn ≡ user_turn pid r.id text)
          × (db'.messages ≡ m ∷ db.messages)
          × (db'.projects ≡ db.projects)
          × (active_run other db' ≡ active_run other db))
unfolding active_run create_run_with_message new_run
create_run_with_message-active pid text db other apart =
    elim (Bool-cases (exists_row (indexed_in pid) db.runs)) [
      | inl taken ↦
          let (r, first) = first_row-exists_row_hit (active_in pid) db.runs (sym same ∙ taken) in
          inl (
            r,
            ap found first,
            bind-err (insert_run pid) _ db unique_violation (insert_run-refused pid db taken),
          )
      | inr free ↦ inr (
        ap found (first_row-exists_row (active_in pid) db.runs (sym same ∙ free)),
        fresh_run pid text db,
        first_message pid text db,
        with_run pid text db,
        create_run_with_message-fresh pid text db free,
        active_run-fresh pid text db,
        refl,
        refl,
        refl,
        active_run-fresh_other pid text db other apart,
      )
    ]
  where
    same : exists_row (indexed_in pid) db.runs ≡ exists_row (active_in pid) db.runs
    same = exists_row-same (indexed_in pid) (active_in pid) db.runs (indexed_in-active_in pid)

abbrev at_work : ℕ → Run → Bool
at_work pid r = r.project == pid && is_running r.state

abbrev pub key_state : Run → ℕ × RunState
key_state r = (r.id, r.state)

abbrev asked : ℕ → Run → Run
asked now r = record r { pause_requested = true; updated_at = now }

-- A request to pause marks the run that holds the project, if that one is at work. No run is
-- resumed or stopped by it: each keeps its key and its state, the runs of another project stay as
-- they were, and so do the messages and the projects.
pub request_pause-active :
    (pid other : ℕ) (db : Db) (r : Run)
    → (pid == other) ≡ false
    → active_run pid db ≡ ok r
    → is_running r.state ≡ true
    → (db' : Db) × (request_pause pid db
        ≡ ok (record r { pause_requested = true; updated_at = db.now }, db'))
      × (active_run pid db' ≡ ok (record r { pause_requested = true; updated_at = db.now }))
      × (map key_state db'.runs ≡ map key_state db.runs)
      × (where_rows (λ (r : Run). r.project == other) db'.runs
          ≡ where_rows (λ (r : Run). r.project == other) db.runs)
      × (db'.messages ≡ db.messages)
      × (db'.projects ≡ db.projects)
unfolding active_run request_pause update_run is_running is_active
request_pause-active pid other db r apart h works =
    let mine : at_work pid r ≡ true =
      ground (arith, first_row-holds (active_in pid) db.runs r (found_ok _ r h)) in
    let first =
      first_row-narrow (active_in pid) (at_work pid) db.runs r (running-active pid) (found_ok _ r h)
        mine in
    (
      record db { runs = update_rows (at_work pid) (asked db.now) db.runs },
      update_run-hit (at_work pid) (asked db.now) db r first,
      ap found (
          first_row-update (active_in pid) (at_work pid) (asked db.now) db.runs r (λ x. refl)
            (found_ok _ r h) mine),
      map-update_rows_same key_state (at_work pid) (asked db.now) db.runs (λ x. refl),
      where_rows-update_rows_other _ (at_work pid) (asked db.now) db.runs
          (λ x hit. elsewhere x.project (is_running x.state) hit)
          (λ x hit. elsewhere x.project (is_running x.state) hit),
      refl,
      refl,
    )
  where
    elsewhere : (q : ℕ) (b : Bool) → (q == pid && b) ≡ true → (q == other) ≡ false
    elsewhere q b hit = ground arith

-- Appending the result of a call takes exactly the calls with its id off those without a result.
pub unanswered-tool_result :
    (rid cid : ℕ) (m : Message) (msgs : List Message) (cs : List ToolCall)
    → of_run rid m ≡ true
    → is_tool m.turn.role ≡ true
    → m.turn.tool_call_id ≡ some cid
    → unanswered rid (m ∷ msgs) cs ≡ delete_rows (λ k. cid == k) (unanswered rid msgs cs)
unfolding unanswered answered delete_rows exists_row
unanswered-tool_result rid cid m msgs [] run tool id = refl
unanswered-tool_result rid cid m msgs (c ∷ cs) run tool id =
    rw (run, tool, id) (ground (arith, unanswered-tool_result rid cid m msgs cs run tool id))
