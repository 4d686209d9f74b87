-- ===== src/Store/Clearing.antt =====
-- Clearing a project's conversation.
use doota.Prelude.{
  ℕ, ◌≡◌, ◌↔◌, refl, Bool, true, false, List, [], ◌∷◌, arith, ◌==◌, if◌then◌else◌, exists_row,
  count_rows, where_rows, delete_rows,
}
use doota.Store.Schema.{Db}
use doota.Store.Query.{err, active_run, after, write_scratchpad}
use doota.Store.Run.{active_in}
use doota.Store.Transcript.{
  run_of, message_of, event_of, delete_all, cleared_counts, clear_board, clear_conversation,
}

count_delete : {A : Type 0} (p : A → Bool) (xs : List A) → count_rows p (delete_rows p xs) ≡ 0
unfolding count_rows delete_rows
count_delete p [] = refl
count_delete p (x ∷ xs) = ground (arith, count_delete p xs)

where_delete :
    {A : Type 0} (p q : A → Bool) (xs : List A)
    → ((x : A) → q x ≡ true → p x ≡ false)
    → where_rows q (delete_rows p xs) ≡ where_rows q xs
unfolding where_rows delete_rows
where_delete p q [] apart = refl
where_delete p q (x ∷ xs) apart = ground (arith, apart x, where_delete p q xs apart)

-- A conversation is refused its clearing exactly where the project has an active run.
pub clear_conversation-active :
    (pid : ℕ) (db : Db)
    → (clear_conversation pid db ≡ err active_run) ↔ (exists_row (active_in pid) db.runs ≡ true)
unfolding clear_conversation clear_board write_scratchpad
clear_conversation-active pid db = by_test (exists_row (active_in pid) db.runs)
  where
    by_test :
        (b : Bool)
        → ((if b
              then err active_run
              else clear_board pid (cleared_counts pid db) (delete_all pid db))
            ≡ err active_run)
          ↔ (b ≡ true)
    by_test true = (λ _. refl, λ _. refl)
    by_test false = (λ h. cc, λ h. cc)

cleared :
    (pid : ℕ) (db : Db)
    → exists_row (active_in pid) db.runs ≡ false
    → clear_conversation pid db ≡ clear_board pid (cleared_counts pid db) (delete_all pid db)
unfolding clear_conversation
cleared pid db h = rw (h, clear_conversation) refl

-- Clearing leaves the project no run, message or event, and every run, message and event of another
-- project as it was.
pub clear_conversation-others :
    (pid other : ℕ) (db : Db)
    → exists_row (active_in pid) db.runs ≡ false
    → (pid == other) ≡ false
    → let db' = after db (clear_conversation pid db) in
      (count_rows (run_of pid) db'.runs ≡ 0)
      × (count_rows (message_of pid) db'.messages ≡ 0)
      × (count_rows (event_of pid) db'.events ≡ 0)
      × (where_rows (run_of other) db'.runs ≡ where_rows (run_of other) db.runs)
      × (where_rows (message_of other) db'.messages ≡ where_rows (message_of other) db.messages)
      × (where_rows (event_of other) db'.events ≡ where_rows (event_of other) db.events)
unfolding delete_all clear_board write_scratchpad
clear_conversation-others pid other db idle apart =
    rw (cleared pid db idle, after)
      (
        count_delete (run_of pid) db.runs,
        count_delete (message_of pid) db.messages,
        count_delete (event_of pid) db.events,
        where_delete (run_of pid) (run_of other) db.runs (λ r h. ground arith),
        where_delete (message_of pid) (message_of other) db.messages (λ r h. ground arith),
        where_delete (event_of pid) (event_of other) db.events (λ r h. ground arith),
      )
