-- ===== src/Store/Invariant.antt =====
-- The invariant of the store's tables, and the rules by which an operation keeps it.
use native.Mathlib.Nat.{le_trans}
use doota.Prelude.{
  ℕ, suc, ◌≤◌, ◌<◌, ◌≡◌, refl, Bool, true, false, not, List, [], ◌∷◌, Option, none, some, arith,
  sym, ◌∙◌, first_row, update_rows, exists_row, count_rows, delete_rows, Bool-cases, inl, inr,
  Option-cases,
}
use doota.Store.Schema.{
  Run, Awaiting, Message, NewMessage, Db, Event, is_active, is_running, is_awaiting, is_paused,
  Scratchpad,
}
use doota.Store.Query.{
  Tx, Result, Error, ok, err, ◌>>=◌, ◌>>◌, guard, return, fail, lift, or_fail, after, update_run,
  append_message_tx, scratchpad_tx, write_scratchpad,
}
use doota.Store.Rows.{exists_row-same}
use doota.Store.Run.{active_in, indexed_in, insert_run, new_run}

abbrev pub has_reason : Option Awaiting → Bool
has_reason none = false
has_reason (some _) = true

abbrev pub is_over : Option ℕ → Bool
is_over none = false
is_over (some _) = true

-- A run that waits has a reason and one that is at work or paused has none, and the runs with the
-- time of their end are those that are not active.
pub record Consistent (r : Run) : Type 0 where
  pub awaits : is_awaiting r.state ≡ true → has_reason r.awaiting_reason ≡ true
  pub works : is_running r.state ≡ true → has_reason r.awaiting_reason ≡ false
  pub rests : is_paused r.state ≡ true → has_reason r.awaiting_reason ≡ false
  pub ends : is_active r.state ≡ not (is_over r.finished_at)

-- The keys of a table fall along the list and stay below the next key.
abbrev pub RunsBelow : ℕ → List Run → Type 0
RunsBelow n [] = Unit {0}
RunsBelow n (r ∷ rs) = (r.id < n) × Consistent r × RunsBelow r.id rs

abbrev pub MessagesBelow : ℕ → List Message → Type 0
MessagesBelow n [] = Unit {0}
MessagesBelow n (m ∷ ms) = (m.id < n) × MessagesBelow m.id ms

abbrev pub EventsBelow : ℕ → List Event → Type 0
EventsBelow n [] = Unit {0}
EventsBelow n (e ∷ es) = (e.id < n) × EventsBelow e.id es

pub record Inv (db : Db) : Type 0 where
  pub one_active : (pid : ℕ) → count_rows (active_in pid) db.runs ≤ 1
  pub runs_below : RunsBelow db.serial db.runs
  pub messages_below : MessagesBelow db.serial db.messages
  pub events_below : EventsBelow db.serial db.events

-- An update that moves no run between projects, activates none and leaves each row consistent.
pub record IsSafe (p : Run → Bool) (f : Run → Run) : Type 0 where
  pub same_id : (r : Run) → (f r).id ≡ r.id
  pub same_project : (r : Run) → (f r).project ≡ r.project
  pub activates_none :
      (r : Run) → p r ≡ true → is_active (f r).state ≡ true → is_active r.state ≡ true
  pub consistent : (r : Run) → p r ≡ true → Consistent r → Consistent (f r)

RunsBelow-mono : (m n : ℕ) (rs : List Run) → m ≤ n → RunsBelow m rs → RunsBelow n rs
RunsBelow-mono m n [] h b = tt
RunsBelow-mono m n (r ∷ rs) h b = (omega arith, b.1, b.2)

MessagesBelow-mono : (m n : ℕ) (ms : List Message) → m ≤ n → MessagesBelow m ms → MessagesBelow n ms
MessagesBelow-mono m n [] h b = tt
MessagesBelow-mono m n (r ∷ rs) h b = (omega arith, b.1)

EventsBelow-mono : (m n : ℕ) (es : List Event) → m ≤ n → EventsBelow m es → EventsBelow n es
EventsBelow-mono m n [] h b = tt
EventsBelow-mono m n (e ∷ es) h b = (omega arith, b.1)

module _ (p : Run → Bool) (f : Run → Run) (safe : IsSafe p f) where
  count_update :
      (pid : ℕ) (rs : List Run)
      → count_rows (active_in pid) (update_rows p f rs) ≤ count_rows (active_in pid) rs
  unfolding count_rows update_rows
  count_update pid [] = omega arith
  count_update pid (r ∷ rs) =
      ground (arith, count_update pid rs, safe.same_project r, safe.activates_none r)

  update-RunsBelow : (n : ℕ) (rs : List Run) → RunsBelow n rs → RunsBelow n (update_rows p f rs)
  unfolding update_rows
  update-RunsBelow n [] b = tt
  update-RunsBelow n (r ∷ rs) b = elim (Bool-cases (p r)) [
    | inl hit ↦ rw hit (
      rw (safe.same_id r) b.0,
      safe.consistent r hit b.1,
      rw (safe.same_id r) (update-RunsBelow r.id rs b.2),
    )
    | inr miss ↦ rw miss (b.0, b.1, update-RunsBelow r.id rs b.2)
  ]

  pub update_run-Inv : (db : Db) → Inv db → Inv (after db (update_run p f db))
  unfolding update_run
  update_run-Inv db v = elim (Option-cases (first_row p db.runs)) [
    | inl missing ↦ rw (missing, update_run) v
    | inr (r, hit) ↦
        rw (hit, update_run)
          (record {
            one_active = λ pid. le_trans (count_update pid db.runs) (v.one_active pid);
            runs_below = update-RunsBelow db.serial db.runs v.runs_below;
            messages_below = v.messages_below;
            events_below = v.events_below;
          })
  ]

-- Deleting rows keeps what is left in order, and makes no run active.
pub delete-RunsBelow :
    (p : Run → Bool) (n : ℕ) (rs : List Run) → RunsBelow n rs → RunsBelow n (delete_rows p rs)
unfolding delete_rows
delete-RunsBelow p n [] b = tt
delete-RunsBelow p n (r ∷ rs) b = elim (Bool-cases (p r)) [
  | inl hit ↦
      rw hit
        (RunsBelow-mono r.id n (delete_rows p rs) (omega arith) (delete-RunsBelow p r.id rs b.2))
  | inr miss ↦ rw miss (b.0, b.1, delete-RunsBelow p r.id rs b.2)
]

pub delete-MessagesBelow :
    (p : Message → Bool) (n : ℕ) (ms : List Message)
    → MessagesBelow n ms
    → MessagesBelow n (delete_rows p ms)
unfolding delete_rows
delete-MessagesBelow p n [] b = tt
delete-MessagesBelow p n (m ∷ ms) b = elim (Bool-cases (p m)) [
  | inl hit ↦ rw hit (
      MessagesBelow-mono m.id n (delete_rows p ms) (omega arith)
        (delete-MessagesBelow p m.id ms b.1))
  | inr miss ↦ rw miss (b.0, delete-MessagesBelow p m.id ms b.1)
]

pub delete-EventsBelow :
    (p : Event → Bool) (n : ℕ) (es : List Event)
    → EventsBelow n es
    → EventsBelow n (delete_rows p es)
unfolding delete_rows
delete-EventsBelow p n [] b = tt
delete-EventsBelow p n (e ∷ es) b = elim (Bool-cases (p e)) [
  | inl hit ↦
      rw hit (
        EventsBelow-mono e.id n (delete_rows p es) (omega arith) (delete-EventsBelow p e.id es b.1))
  | inr miss ↦ rw miss (b.0, delete-EventsBelow p e.id es b.1)
]

pub count-delete :
    {A : Type 0} (q p : A → Bool) (xs : List A) → count_rows q (delete_rows p xs) ≤ count_rows q xs
unfolding count_rows delete_rows
count-delete q p [] = omega arith
count-delete q p (x ∷ xs) = ground (arith, count-delete q p xs)

-- An operation that keeps the invariant, whether it succeeds or not.
pub record Keeps {A : Type 0} (m : Tx A) : Type 0 where
  pub kept : (db : Db) → Inv db → Inv (after db (m db))

pub append_message_tx-Keeps : (turn : NewMessage) → Keeps (append_message_tx turn)
unfolding append_message_tx
append_message_tx-Keeps turn = record {
  kept = λ db v. record {
    one_active = v.one_active;
    runs_below = RunsBelow-mono db.serial (suc db.serial) db.runs (omega arith) v.runs_below;
    messages_below = (omega arith, v.messages_below);
    events_below =
        EventsBelow-mono db.serial (suc db.serial) db.events (omega arith) v.events_below;
  };
}

pub scratchpad_tx-Keeps : (pid : ℕ) → Keeps (scratchpad_tx pid)
unfolding scratchpad_tx
scratchpad_tx-Keeps pid = record { kept = λ db v. ground arith }

pub write_scratchpad-Keeps : (pid : ℕ) (pad : Scratchpad) → Keeps (write_scratchpad pid pad)
unfolding write_scratchpad
write_scratchpad-Keeps pid pad = record {
  kept = λ db v. record {
    one_active = v.one_active;
    runs_below = v.runs_below;
    messages_below = v.messages_below;
    events_below = v.events_below;
  };
}

exists_row-count :
    {A : Type 0} (p : A → Bool) (xs : List A) → exists_row p xs ≡ false → count_rows p xs ≡ 0
unfolding exists_row count_rows
exists_row-count p [] h = refl
exists_row-count p (x ∷ xs) h = ground (arith, exists_row-count p xs)

-- The index and the query for the active run speak of the same states.
pub indexed_in-active_in : (pid : ℕ) (r : Run) → indexed_in pid r ≡ active_in pid r
unfolding is_running is_awaiting is_paused is_active
indexed_in-active_in pid r = ground arith

insert_run-after : (pid : ℕ) (db : Db) → Inv db → Inv (after db (insert_run pid db))
unfolding insert_run new_run count_rows is_active is_running is_paused is_awaiting
insert_run-after pid db v = elim (Bool-cases (exists_row (indexed_in pid) db.runs)) [
  | inl taken ↦ rw (taken, insert_run) v
  | inr free ↦
      rw (free, insert_run)
        (record {
          one_active = λ other.
              ground
                (arith, v.one_active other, exists_row-count (active_in pid) db.runs (unused free));
          runs_below = (omega arith, fresh_Consistent, v.runs_below);
          messages_below =
              MessagesBelow-mono db.serial (suc db.serial) db.messages (omega arith)
                v.messages_below;
          events_below =
              EventsBelow-mono db.serial (suc db.serial) db.events (omega arith) v.events_below;
        })
]
  where
    unused :
        exists_row (indexed_in pid) db.runs ≡ false → exists_row (active_in pid) db.runs ≡ false
    unused free =
        sym (exists_row-same (indexed_in pid) (active_in pid) db.runs (indexed_in-active_in pid))
        ∙ free

    fresh_Consistent : Consistent (new_run db.serial pid db.now)
    fresh_Consistent = ground arith

pub insert_run-Keeps : (pid : ℕ) → Keeps (insert_run pid)
insert_run-Keeps pid = record { kept = insert_run-after pid }

-- A key is taken for a new event.
pub serial-Inv :
    (db : Db) (events : List Event)
    → EventsBelow (suc db.serial) events
    → Inv db
    → Inv (record db { events = events; serial = suc db.serial })
serial-Inv db events below v = record {
  one_active = v.one_active;
  runs_below = RunsBelow-mono db.serial (suc db.serial) db.runs (omega arith) v.runs_below;
  messages_below =
      MessagesBelow-mono db.serial (suc db.serial) db.messages (omega arith) v.messages_below;
  events_below = below;
}

pub after-Inv :
    {A : Type 0} (db db' : Db) (r : Result (A × Db)) → Inv db → Inv (after db' r) → Inv (after db r)
after-Inv db db' (ok (_, _)) v w = w
after-Inv db db' (err _) v w = v

module _ {A B : Type 0} (m : Tx A) (k : A → Tx B) where
  pub bind-Keeps : Keeps m → ((a : A) → Keeps (k a)) → Keeps (m >>= k)
  bind-Keeps hm hk = record { kept = λ db v. rest db v (m db) (hm.kept db v) }
    where
      rest :
          (db : Db)
          → Inv db
          → (r : Result (A × Db)) → Inv (after db r)
          → Inv (after db (elim r [ err e ↦ err e | ok (a, db') ↦ k a db' ]))
      rest db v (err e) w = v
      rest db v (ok (a, db')) w = after-Inv db db' (k a db') v ((hk a).kept db' w)

module _ {A B : Type 0} (m : Tx A) (k : Tx B) where
  pub then-Keeps : Keeps m → Keeps k → Keeps (m >> k)
  then-Keeps hm hk = bind-Keeps m (λ _. k) hm (λ _. hk)

pub return-Keeps : {A : Type 0} (a : A) → Keeps (return a)
return-Keeps a = record { kept = λ db v. v }

pub guard-Keeps : (b : Bool) (e : Error) → Keeps (guard b e)
guard-Keeps true e = record { kept = λ db v. v }
guard-Keeps false e = record { kept = λ db v. v }

pub fail-Keeps : {A : Type 0} (e : Error) → Keeps (fail {A = A} e)
fail-Keeps e = record { kept = λ db v. v }

pub lift-Keeps : {A : Type 0} (r : Result A) → Keeps (lift r)
lift-Keeps (ok a) = record { kept = λ db v. v }
lift-Keeps (err e) = record { kept = λ db v. v }

pub or_fail-Keeps : {A : Type 0} (o : Option A) (e : Error) → Keeps (or_fail o e)
or_fail-Keeps (some a) e = record { kept = λ db v. v }
or_fail-Keeps none e = record { kept = λ db v. v }

pub ruleset keeps = (
  bind-Keeps, then-Keeps, return-Keeps, guard-Keeps, fail-Keeps, lift-Keeps, or_fail-Keeps,
  append_message_tx-Keeps, scratchpad_tx-Keeps, write_scratchpad-Keeps, insert_run-Keeps,
)
