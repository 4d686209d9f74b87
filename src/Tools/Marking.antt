-- ===== src/Tools/Marking.antt =====
-- The row of a process that is marked as stopped, and steps on the table that came to a result.
use doota.Prelude.{
  ℕ, ◌≤◌, ◌≡◌, refl, ap, ◌∙◌, Bool, true, false, List, [], ◌∷◌, Option, none, some, arith, ◌==◌,
  first_row, update_rows, count_rows, eq_self, Bool-cases, Option-cases, inl, inr,
}
use doota.Prelude.Text.{Text}
use doota.Store.Query.{Result, ok, err, not_found}
use doota.Project.Background.{
  BackgroundProcess, bg_stopped, is_bg_running, is_running_named, found, running_background_process,
  set_background_process_status,
}
use doota.Project.Names.{OneRunning}
use doota.Tools.Shell.{Shell, Bg, ◌>>=◌, mark_stopped}

module _ {A : Type 0} (p q : A → Bool) (f : A → A) (off : (x : A) → p (f x) ≡ false) where
  update_rows-none :
      (rows : List A) → count_rows p rows ≤ 0 → first_row p (update_rows q f rows) ≡ none
  unfolding first_row update_rows count_rows
  update_rows-none [] h = refl
  update_rows-none (x ∷ xs) h = ground (arith, off x, update_rows-none xs)

  some_injective : (x b : A) → some x ≡ some b → x ≡ b
  some_injective x b e = cc

  update_rows-gone :
      (rows : List A) (b : A)
      → first_row p rows ≡ some b
      → count_rows p rows ≤ 1
      → q b ≡ true
      → first_row p (update_rows q f rows) ≡ none
  unfolding first_row update_rows count_rows
  update_rows-gone [] b e h hit = absurd (ground arith)
  update_rows-gone (x ∷ xs) b e h hit = elim (Bool-cases (p x)) [
    | inl here ↦
        let same : x ≡ b = some_injective x b (rw here at e) in
        let gone : q x ≡ true = rw same hit in ground (arith, off x, update_rows-none xs)
    | inr there ↦ ground (arith, off x, update_rows-gone xs b)
  ]

stopped_off :
    (pid : ℕ) (name : Text) (stopped : Option ℕ) (o : BackgroundProcess)
    → is_running_named pid name (record o { status = bg_stopped; stopped_at = stopped }) ≡ false
unfolding is_bg_running
stopped_off pid name stopped o = ground arith

found-some : (o : Option BackgroundProcess) (b : BackgroundProcess) → found o ≡ ok b → o ≡ some b
found-some none b e = ground arith
found-some (some c) b e = let same : c ≡ b = cc in ap some same

mark_stopped-table :
    (i : ℕ) (s : Shell) (c : BackgroundProcess)
    → first_row (λ (o : BackgroundProcess). o.id == i) s.table.rows ≡ some c
    → (mark_stopped i s).1.table ≡ record s.table {
      rows =
          update_rows
            (λ (o : BackgroundProcess). o.id == i)
            (λ o. record o { status = bg_stopped; stopped_at = some s.table.now })
            s.table.rows;
    }
unfolding mark_stopped set_background_process_status is_bg_running
mark_stopped-table i s c known = rw (known, mark_stopped, set_background_process_status) refl

pub mark_stopped-gone :
    (pid : ℕ) (name : Text) (b : BackgroundProcess) (s : Shell)
    → OneRunning s.table
    → running_background_process pid name s.table ≡ ok b
    → (mark_stopped b.id s).0 ≡ ok tt
    → running_background_process pid name (mark_stopped b.id s).1.table ≡ err not_found
unfolding mark_stopped set_background_process_status running_background_process is_bg_running
mark_stopped-gone pid name b s one running h =
    elim (Option-cases (first_row (λ (o : BackgroundProcess). o.id == b.id) s.table.rows)) [
      | inl none_such ↦ absurd (ground arith)
      | inr (c, known) ↦
          let first = found-some (first_row (is_running_named pid name) s.table.rows) b running in
          ap (running_background_process pid name) (mark_stopped-table b.id s c known)
          ∙ ap found (
              update_rows-gone (is_running_named pid name) (λ o. o.id == b.id)
                (λ o. record o { status = bg_stopped; stopped_at = some s.table.now })
                (stopped_off pid name (some s.table.now)) s.table.rows b first (one pid name)
                (eq_self b.id))
    ]

-- A step that came to a result passes its state on.
pub bind-ok :
    {A B : Type 0} (m : Bg A) (f : A → Bg B) (s : Shell) (b : B)
    → ((m >>= f) s).0 ≡ ok b
    → (a : A) × ((m s).0 ≡ ok a) × ((f a (m s).1).0 ≡ ok b) × (((m >>= f) s).1 ≡ (f a (m s).1).1)
bind-ok {A} {B} m f s b h = go (m s).0 h
  where
    go :
        (r : Result A)
        → (elim r as (λ _. Result B × Shell) [ err e ↦ (err e, (m s).1) | ok a ↦ f a (m s).1 ]).0
          ≡ ok b
        → (a : A) × (r ≡ ok a)
          × ((f a (m s).1).0 ≡ ok b)
          × ((elim r as (λ _. Result B × Shell) [ err e ↦ (err e, (m s).1) | ok a ↦ f a (m s).1 ]).1
              ≡ (f a (m s).1).1)
    go (err e) k = absurd (ground arith)
    go (ok a) k = (a, refl, k, refl)
