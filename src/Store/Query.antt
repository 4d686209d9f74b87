-- ===== src/Store/Query.antt =====
-- How a statement runs: the errors that reach the caller, transactions that roll back, and the
-- update of one table of runs with `RETURNING`.
use doota.Prelude.{
  ℕ, suc, Bool, true, false, ◌∷◌, ◌++◌, Option, none, some, ◌==◌, first_row, update_rows,
}
use doota.Prelude.Text.{Text, codes}
use doota.Store.Schema.{Run, Message, NewMessage, Db, Scratchpad, Project}

-- `ErrNotFound`, `ErrActiveRun`, a violation of the index run_one_active, the agent's `ErrBusy`, a
-- cancelled context, the sandbox's `ErrNotFound`, and a message of the operation's own; `wrapped` is `fmt.Errorf` with `%w`.
pub data Error : Type 0 where
  not_found active_run unique_violation busy canceled sandbox_gone : Error
  refused : Text → Error
  wrapped : Text → Error → Error

-- `Error()`.
unfoldable pub error_message : Error → Text
error_message not_found = codes "not found"
error_message active_run = codes "an active run prevents this operation"
error_message unique_violation = codes "duplicate key value violates unique constraint"
error_message busy = codes "the agent is already working"
error_message canceled = codes "context canceled"
error_message sandbox_gone = codes "sandbox not found"
error_message (refused t) = t
error_message (wrapped t e) = t ++ codes ": " ++ error_message e

-- `errors.Is(e, sandbox.ErrNotFound)` and `errors.Is(e, context.Canceled)`.
unfoldable pub is_sandbox_gone : Error → Bool
is_sandbox_gone sandbox_gone = true
is_sandbox_gone (wrapped _ e) = is_sandbox_gone e
is_sandbox_gone _ = false

unfoldable pub is_canceled : Error → Bool
is_canceled canceled = true
is_canceled (wrapped _ e) = is_canceled e
is_canceled _ = false

pub data Result {ℓ} (A : Type ℓ) : Type ℓ where
  ok : A → Result A
  err : Error → Result A

-- An operation on the database. An error leaves no trace: a statement is atomic, and each
-- transaction is rolled back by its deferred `Rollback`.
abbrev pub Tx : Type 0 → Type 0
Tx A = Db → Result (A × Db)

infixl 5 ◌>>=◌ ◌>>◌
abbrev pub ◌>>=◌ : {A B : Type 0} → Tx A → (A → Tx B) → Tx B
◌>>=◌ m f db = elim (m db) [ err e ↦ err e | ok (a, db') ↦ f a db' ]

abbrev pub ◌>>◌ : {A B : Type 0} → Tx A → Tx B → Tx B
◌>>◌ m k db = elim (m db) [ err e ↦ err e | ok (_, db') ↦ k db' ]

abbrev pub return : {A : Type 0} → A → Tx A
return a db = ok (a, db)

abbrev pub fail : {A : Type 0} → Error → Tx A
fail e db = err e

abbrev pub guard : Bool → Error → Tx (Unit {0})
guard true e db = ok (tt, db)
guard false e db = err e

abbrev pub lift : {A : Type 0} → Result A → Tx A
lift (ok a) db = ok (a, db)
lift (err e) db = err e

abbrev pub or_fail : {A : Type 0} → Option A → Error → Tx A
or_fail (some a) e db = ok (a, db)
or_fail none e db = err e

-- The state of the database after an operation, whatever came of it.
abbrev pub after : {A : Type 0} → Db → Result (A × Db) → Db
after db (ok (_, db')) = db'
after db (err _) = db

-- `scanRun`: the first row, or `ErrNotFound`.
abbrev pub found {ℓ} : {A : Type ℓ} → Option A → Result A
found none = err not_found
found (some a) = ok a

-- `UPDATE run SET f WHERE p RETURNING …`, scanned by `QueryRow`. The index run_one_active is not
-- checked here: no update of the program can break it (Store/Run/Unique).
unfoldable pub update_run : (Run → Bool) → (Run → Run) → Tx Run
update_run p f db = elim (first_row p db.runs) [
  | none ↦ err not_found
  | some r ↦ ok (f r, record db { runs = update_rows p f db.runs })
]

-- `INSERT INTO message … RETURNING …`
unfoldable pub append_message_tx : NewMessage → Tx Message
append_message_tx turn db =
    let m : Message = record {
      id = db.serial;
      turn = turn;
      in_context = true;
      created_at = db.now;
    } in
    ok (m, record db { messages = m ∷ db.messages; serial = suc db.serial })

-- `SELECT scratchpad FROM project WHERE id = $1 FOR UPDATE`
unfoldable pub scratchpad_tx : ℕ → Tx Scratchpad
scratchpad_tx pid db = elim (first_row (λ (p : Project). p.id == pid) db.projects) [
  | none ↦ err not_found
  | some p ↦ ok (p.scratchpad, db)
]

-- `UPDATE project SET scratchpad = $2 WHERE id = $1`
unfoldable pub write_scratchpad : ℕ → Scratchpad → Tx (Unit {0})
write_scratchpad pid pad db = ok (
  tt,
  record db {
    projects =
        update_rows (λ (p : Project). p.id == pid) (λ p. record p { scratchpad = pad }) db.projects;
  },
)
