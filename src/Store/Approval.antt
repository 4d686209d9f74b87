-- ===== src/Store/Approval.antt =====
-- What an approval and a revision of a plan do to the board and to the run that waits for them.
use doota.Prelude.{
  ℕ, ◌≡◌, refl, ap, sym, ◌∙◌, Bool, true, false, ◌&&◌, Option, none, some, ◌==◌, first_row,
  update_rows, first_row-holds, List, [], ◌∷◌, arith,
}
use doota.Prelude.Text.{Text, trim_space}
use doota.Store.Rows.{first_row-update, first_row-update_only}
use doota.Store.Invariant.{Inv}
use doota.Store.Schema.{
  Project, Run, Message, Db, Scratchpad, approved, is_active, is_running, is_awaiting,
  is_plan_approval,
}
use doota.Store.Query.{
  Tx, Result, ok, err, Error, not_found, refused, ◌>>=◌, guard, update_run, found,
  append_message_tx, scratchpad_tx, write_scratchpad,
}
use doota.Store.Run.{user_turn, active_in, active_run}
use doota.Store.Board.{awaiting_approval}
use doota.Store.Plan.{released_row, release_run, approved_pad, no_draft, is_project, approve_plan}

-- What follows from a sequence that went through, from its two steps.
bind-ok :
    {A B P : Type 0} (m : Tx A) (k : A → Tx B) (db : Db) (x : B × Db)
    → (m >>= k) db ≡ ok x
    → ((a : A) (db' : Db) → m db ≡ ok (a, db') → k a db' ≡ ok x → P)
    → P
bind-ok {A = A} {B = B} {P = P} m k db x h next = by_result (m db) next h
  where
    by_result :
        (r : Result (A × Db))
        → ((a : A) (db' : Db) → r ≡ ok (a, db') → k a db' ≡ ok x → P)
        → elim r as (λ _. Result (B × Db)) [ err e ↦ err e | ok (a, db') ↦ k a db' ] ≡ ok x
        → P
    by_result (err e) next h = cc
    by_result (ok (a, db')) next h = next a db' refl h

ok-inj : {A : Type 0} (a b : A) → ok a ≡ ok b → a ≡ b
ok-inj a b h = cc

guard-ok :
    (b : Bool) (e : Error) (db : Db) (x : Unit {0} × Db)
    → guard b e db ≡ ok x
    → (b ≡ true) × (x.1 ≡ db)
guard-ok true e db x h = (refl, sym (ap (λ p. p.1) (ok-inj (tt, db) x h)))
guard-ok false e db x h = cc

-- A run of the project waits for the approval of its plan.
abbrev pub waits_for_plan : ℕ → Run → Bool
waits_for_plan pid r = r.project == pid && is_awaiting r.state && is_plan_approval r.awaiting_reason

release_run-ok :
    (pid : ℕ) (db : Db) (r : Run) (db' : Db)
    → release_run pid db ≡ ok (r, db')
    → (old : Run) × (first_row (waits_for_plan pid) db.runs ≡ some old)
      × (r ≡ released_row db.now old)
      × (db'.projects ≡ db.projects)
      × (db'.messages ≡ db.messages)
      × (db'.runs ≡ update_rows (waits_for_plan pid) (released_row db.now) db.runs)
unfolding release_run update_run
release_run-ok pid db r db' h = by_row (first_row (waits_for_plan pid) db.runs) h
  where
    by_row :
        (row : Option Run)
        → elim row as (λ _. Result (Run × Db)) [
          | none ↦ err not_found
          | some old ↦ ok (
            released_row db.now old,
            record db { runs = update_rows (waits_for_plan pid) (released_row db.now) db.runs },
          )
        ]
          ≡ ok (r, db')
        → (old : Run) × (row ≡ some old)
          × (r ≡ released_row db.now old)
          × (db'.projects ≡ db.projects)
          × (db'.messages ≡ db.messages)
          × (db'.runs ≡ update_rows (waits_for_plan pid) (released_row db.now) db.runs)
    by_row none h = cc
    by_row (some old) h =
        let same = ok-inj _ (r, db') h in
        (
          old,
          refl,
          sym (ap (λ p. p.0) same),
          sym (ap (λ p. p.1.projects) same),
          sym (ap (λ p. p.1.messages) same),
          sym (ap (λ p. p.1.runs) same),
        )

-- A board that was read is that of the first row of the project.
scratchpad_tx-ok :
    (pid : ℕ) (db : Db) (pad : Scratchpad) (db' : Db)
    → scratchpad_tx pid db ≡ ok (pad, db')
    → (p : Project) × (first_row (is_project pid) db.projects ≡ some p)
      × (pad ≡ p.scratchpad)
      × (db' ≡ db)
unfolding scratchpad_tx
scratchpad_tx-ok pid db pad db' h = by_project (first_row (is_project pid) db.projects) h
  where
    by_project :
        (row : Option Project)
        → elim row as (λ _. Result (Scratchpad × Db)) [
          | none ↦ err not_found
          | some p ↦ ok (p.scratchpad, db)
        ]
          ≡ ok (pad, db')
        → (p : Project) × (row ≡ some p) × (pad ≡ p.scratchpad) × (db' ≡ db)
    by_project none h = cc
    by_project (some p) h =
        let same = ok-inj _ (pad, db') h in
        (p, refl, sym (ap (λ p. p.0) same), sym (ap (λ p. p.1) same))

scratchpad_tx-row :
    (pid : ℕ) (db : Db) (p : Project)
    → first_row (is_project pid) db.projects ≡ some p
    → scratchpad_tx pid db ≡ ok (p.scratchpad, db)
unfolding scratchpad_tx
scratchpad_tx-row pid db p h = rw (h, scratchpad_tx) refl

-- The board is read back as it was written.
scratchpad_tx-write_scratchpad :
    (pid : ℕ) (pad : Scratchpad) (db db' : Db) (p : Project)
    → first_row (is_project pid) db.projects ≡ some p
    → db'.projects
      ≡ update_rows (is_project pid) (λ (p : Project). record p { scratchpad = pad }) db.projects
    → scratchpad_tx pid db' ≡ ok (pad, db')
scratchpad_tx-write_scratchpad pid pad db db' p h written =
    scratchpad_tx-row pid db' (record p { scratchpad = pad })
      (ap (first_row (is_project pid)) written
        ∙ first_row-update (is_project pid) (is_project pid) _ db.projects p (λ x. refl) h
            (first_row-holds (is_project pid) db.projects p h))

-- The run that was released is the active run of its project.
active_run-released :
    (pid : ℕ) (db db' : Db) (old : Run)
    → Inv db
    → first_row (waits_for_plan pid) db.runs ≡ some old
    → db'.runs ≡ update_rows (waits_for_plan pid) (released_row db.now) db.runs
    → active_run pid db' ≡ ok (released_row db.now old)
unfolding active_run is_awaiting is_active released_row
active_run-released pid db db' old v first runs =
    ap (λ rows. found (first_row (active_in pid) rows)) runs
    ∙ ap found (
        first_row-update_only (active_in pid) (waits_for_plan pid) (released_row db.now) db.runs old
          waits works (v.one_active pid) first)
  where
    waits : (r : Run) → waits_for_plan pid r ≡ true → active_in pid r ≡ true
    waits r h = ground arith

    works : (r : Run) → waits_for_plan pid r ≡ true → active_in pid (released_row db.now r) ≡ true
    works r h = ground arith

-- An approval that goes through found a draft on the board and a run that waited for it. The board
-- is then that draft, marked as approved on top of the trimmed commit and without feedback, and it
-- is what the tables hold. In tables that satisfy the invariant, that run is at work and is
-- the project's active run in the tables, a pause that was asked for in the meantime is still
-- asked for, and the message that tells the model belongs to it and is
-- appended to the transcript.
pub approve_plan-ok :
    (pid : ℕ) (base : Text) (db : Db) (pad : Scratchpad) (r : Run) (m : Message) (db' : Db)
    → Inv db
    → approve_plan pid base db ≡ ok ((pad, r, m), db')
    → (old : Run) × (pad₀ : Scratchpad) × (scratchpad_tx pid db ≡ ok (pad₀, db))
      × (awaiting_approval pad₀ ≡ true)
      × (first_row (waits_for_plan pid) db.runs ≡ some old)
      × (pad ≡ record pad₀ { status = some approved; base_commit = trim_space base; feedback = [] })
      × (scratchpad_tx pid db' ≡ ok (pad, db'))
      × (is_running r.state ≡ true)
      × (r.id ≡ old.id)
      × (r.pause_requested ≡ old.pause_requested)
      × (m.turn.run ≡ some old.id)
      × (active_run pid db' ≡ ok r)
      × (db'.messages ≡ m ∷ db.messages)
unfolding approve_plan write_scratchpad append_message_tx approved_pad user_turn released_row
    is_running
approve_plan-ok pid base db pad r m db' v h =
    bind-ok (scratchpad_tx pid) _ db _ h λ pad₀ db₁ read h₁.
      bind-ok (guard (awaiting_approval pad₀) (refused no_draft)) _ db₁ _ h₁ λ u db₂ checked h₂.
        bind-ok (release_run pid) _ _ _ h₂ λ r₁ db₃ released h₃.
          let (old, first, row, kept, said, runs) = release_run-ok pid _ r₁ db₃ released in
          let (p, stored, was, unread) = scratchpad_tx-ok pid db pad₀ db₁ read in
          let (draft, unchanged) = guard-ok (awaiting_approval pad₀) _ db₁ (u, db₂) checked in
          let last = ok-inj _ ((pad, r, m), db') h₃ in
          let written = sym (ap (λ x. x.0.1) last) ∙ row in
          let same = unchanged ∙ unread in
          let board = sym (ap (λ x. x.0.0) last) in
          (
            old,
            pad₀,
            scratchpad_tx-row pid db p stored ∙ ap (λ t. ok (t, db)) (sym was),
            draft,
            ap (λ (d : Db). first_row (waits_for_plan pid) d.runs) (sym same) ∙ first,
            board,
            scratchpad_tx-write_scratchpad pid pad db db' p stored (
                sym (ap (λ x. x.1.projects) last)
                ∙ kept
                ∙ ap (λ (d : Db). with_pad (approved_pad base pad₀) d.projects) same
                ∙ ap (λ t. with_pad t db.projects) (sym board)),
            ap (λ (r : Run). is_running r.state) written,
            ap (λ (r : Run). r.id) written,
            ap (λ (r : Run). r.pause_requested) written,
            sym (ap (λ x. x.0.2.turn.run) last) ∙ ap (λ (r : Run). some r.id) row,
            active_run-released pid db db' old v
                  (ap (λ (d : Db). first_row (waits_for_plan pid) d.runs) (sym same) ∙ first)
                  (sym (ap (λ x. x.1.runs) last)
                    ∙ runs
                    ∙ ap (λ (d : Db). update_rows (waits_for_plan pid) (released_row d.now) d.runs)
                        same)
                ∙ ap ok (ap (λ (d : Db). released_row d.now old) (sym same) ∙ sym written),
            sym (ap (λ x. x.1.messages) last)
                ∙ ap (λ x. x.0.2 ∷ db₃.messages) last
                ∙ ap (λ (msgs : List Message). m ∷ msgs) (said ∙ ap (λ (d : Db). d.messages) same),
          )
  where
    with_pad : Scratchpad → List Project → List Project
    with_pad t = update_rows (is_project pid) (λ p. record p { scratchpad = t })
