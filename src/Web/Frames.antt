-- ===== src/Web/Frames.antt =====
-- The frames of the event stream, read as a browser reads them.
use doota.Prelude.{
  ℕ, ◌≡◌, refl, ap, ◌∙◌, Bool, true, false, List, [], ◌∷◌, ◌++◌, some, ◌==◌, ltb, if◌then◌else◌,
  exists_row, All, arith, Bool-cases, inl, inr, append_assoc,
}
use doota.Prelude.Text.{Text, codes, decimal, is_empty, join, split_step, split_at_char}
use doota.Web.Decimal.{decimal-exists_row}
use doota.Web.Sse.{data_lines, write_frame}
use doota.Web.Reader.{
  Received, nothing_received, line_ends, browser_lines, read_frame, has_break, sent, sent_id,
  read_frame-fields,
}

abbrev has_return : Text → Bool
has_return t = exists_row (λ c. c == b'\r') t

-- A text without a carriage return has the line ends that it had.
line_ends-append :
    (x y : Text) → has_return x ≡ false → line_ends false (x ++ y) ≡ x ++ line_ends false y
unfolding line_ends exists_row
line_ends-append [] y h = refl
line_ends-append (c ∷ x) y h = elim (Bool-cases (c == b'\r')) [
  | inl ended ↦ absurd (let wrong : true ≡ false = rw ended at h in cc)
  | inr other ↦ rw other (ap (λ t. c ∷ t) (line_ends-append x y (rw other at h)))
]

has_return-append :
    (x y : Text) → has_return x ≡ false → has_return y ≡ false → has_return (x ++ y) ≡ false
unfolding exists_row
has_return-append [] y h k = k
has_return-append (c ∷ x) y h k = ground (arith, has_return-append x y)

split_at_char-has_return :
    (t : Text) → has_return t ≡ false → All (λ s. has_return s ≡ false) (split_at_char b'\n' t)
unfolding split_at_char exists_row
split_at_char-has_return [] h = (refl, tt)
split_at_char-has_return (c ∷ cs) h =
    let (here, later) : ((c == b'\r') ≡ false) × (has_return cs ≡ false) = ground arith in
    stepped (c == b'\n') (split_at_char b'\n' cs) here (split_at_char-has_return cs later)
  where
    stepped :
        (b : Bool) (ls : List Text)
        → (c == b'\r') ≡ false
        → All (λ s. has_return s ≡ false) ls
        → All (λ s. has_return s ≡ false) (split_step b c ls)
    stepped true ls other all = (refl, all)
    stepped false [] other all = (rw other refl, tt)
    stepped false (l ∷ ls) other all = (rw other all.0, all.1)

data_lines-has_return :
    (ls : List Text) → All (λ s. has_return s ≡ false) ls → has_return (data_lines ls) ≡ false
unfolding data_lines exists_row
data_lines-has_return [] all = refl
data_lines-has_return (l ∷ ls) all =
    has_return-append (codes "data: " ++ l) (b'\n' ∷ data_lines ls) all.0
      (data_lines-has_return ls all.1)

id_line-has_return :
    (id : ℕ)
    → has_return (if ltb 0 id then codes "id: " ++ decimal id ++ b'\n' ∷ [] else []) ≡ false
unfolding exists_row
id_line-has_return id = elim (Bool-cases (ltb 0 id)) [
  | inl stored ↦ rw stored (
      has_return-append (codes "id: " ++ decimal id) (b'\n' ∷ [])
        (decimal-exists_row _ id λ c digit. ground arith) refl)
  | inr live ↦ rw live refl
]

sent-has_return : (payload : Text) → has_return payload ≡ false → has_return (sent payload) ≡ false
unfolding is_empty exists_row
sent-has_return [] h = refl
sent-has_return (c ∷ cs) h = h

write_frame-has_return :
    (id : ℕ) (event_type payload : Text)
    → has_return event_type ≡ false
    → has_return payload ≡ false
    → has_return (write_frame id event_type payload) ≡ false
unfolding write_frame exists_row
write_frame-has_return id event_type payload one_line h =
    let fields = data_lines (split_at_char b'\n' (sent payload)) in
    let shape : write_frame id event_type payload
        ≡ (if ltb 0 id then codes "id: " ++ decimal id ++ b'\n' ∷ [] else [])
          ++ ((codes "event: " ++ event_type) ++ (b'\n' ∷ (fields ++ b'\n' ∷ []))) =
      simp append_assoc in
    ap has_return shape
    ∙ has_return-append (if ltb 0 id then codes "id: " ++ decimal id ++ b'\n' ∷ [] else []) _
        (id_line-has_return id)
        (has_return-append (codes "event: " ++ event_type) (b'\n' ∷ (fields ++ b'\n' ∷ [])) one_line
          (has_return-append fields (b'\n' ∷ [])
            (data_lines-has_return _
              (split_at_char-has_return (sent payload) (sent-has_return payload h)))
            refl))

-- A browser, which ends lines at line feeds and at carriage returns, reads a frame back from what is
-- written of it, and goes on after it: its id where it was stored, its type where that has no line
-- break, and its payload, however many lines that has, where neither has a carriage return.
pub read_frame-write_frame :
    (id : ℕ) (event_type payload after : Text)
    → has_break event_type ≡ false
    → has_return event_type ≡ false
    → has_return payload ≡ false
    → (r : Received) × (read_frame nothing_received
          (browser_lines (write_frame id event_type payload ++ after))
        ≡ some (r, browser_lines after))
      × (r.last_id ≡ sent_id id)
      × (r.event ≡ event_type)
      × (join (codes "\n") r.lines ≡ sent payload)
unfolding browser_lines
read_frame-write_frame id event_type payload after unbroken one_line whole =
    let (r, read, last_id, event, lines) =
      read_frame-fields id event_type payload (line_ends false after) unbroken in
    (
      r,
      ap (λ t. read_frame nothing_received (split_at_char b'\n' t))
            (line_ends-append (write_frame id event_type payload) after
              (write_frame-has_return id event_type payload one_line whole))
          ∙ read,
      last_id,
      event,
      lines,
    )
