-- ===== src/Web/Reader.antt =====
-- How a browser reads the event stream of internal/web/sse.go.
use doota.Prelude.{
  ℕ, ◌≡◌, refl, sym, ◌&&◌, ap, ◌∙◌, Bool, true, false, List, [], ◌∷◌, ◌++◌, Option, none, some,
  ◌==◌, ltb, if◌then◌else◌, exists_row, All, arith, Bool-cases, inl, inr, append_assoc, append-nil,
}
use doota.Prelude.Text.{Text, codes, decimal, is_empty, text_eq, join, split_step, split_at_char}
use doota.Tools.Splitting.{split_at_char-append, split_at_char-piece, split_at_char-is_empty}
use doota.Web.Session.{cut}
use doota.Web.Decimal.{decimal-exists_row}
use doota.Web.Sse.{data_lines, write_frame}

-- What the fields of a frame say; a field that is absent is empty.
pub record Received : Type 0 where
  pub last_id : Text
  pub event : Text
  pub lines : List Text

abbrev pub nothing_received : Received
nothing_received = record { last_id = []; event = []; lines = [] }

-- The value after the colon, without one blank at its start.
unfoldable value_of : Text → Text
value_of [] = []
value_of (c ∷ cs) = if c == b' ' then cs else c ∷ cs

unfoldable set_field : Text → Text → Received → Received
unfolding text_eq
set_field name value r =
    if text_eq name (codes "id")
    then record r { last_id = value }
    else if text_eq name (codes "event")
    then record r { event = value }
    else if text_eq name (codes "data")
    then record r { lines = r.lines ++ value ∷ [] }
    else r

unfoldable take_line : Text → Received → Received
unfolding cut value_of set_field
take_line line r = elim (cut b':' line) [
  | none ↦ set_field line [] r
  | some (name, value) ↦ set_field name (value_of value) r
]

-- The ends of lines as the standard reads them: a carriage return ends a line, alone or together
-- with the line feed after it, and so does a line feed. The flag says that the last character was a
-- carriage return.
unfoldable pub line_ends : Bool → Text → Text
line_ends after_cr [] = []
line_ends after_cr (c ∷ cs) =
    let rest = line_ends (c == b'\r') cs in
    if c == b'\r' then b'\n' ∷ rest else if after_cr && c == b'\n' then rest else c ∷ rest

unfoldable pub browser_lines : Text → List Text
unfolding line_ends split_at_char
browser_lines t = split_at_char b'\n' (line_ends false t)

-- The lines up to the empty one that ends a frame, as the standard of server-sent events reads
-- them.
unfoldable pub read_frame : Received → List Text → Option (Received × List Text)
unfolding take_line is_empty
read_frame r [] = none
read_frame r (l ∷ ls) =
    let rest = read_frame (take_line l r) ls in if is_empty l then some (r, ls) else rest

abbrev pub has_break : Text → Bool
has_break t = exists_row (λ c. c == b'\n') t

take-data :
    (l : Text) (r : Received)
    → take_line (codes "data: " ++ l) r ≡ record r { lines = r.lines ++ l ∷ [] }
unfolding take_line cut value_of set_field text_eq
take-data l r = refl

take-event : (l : Text) (r : Received) → take_line (codes "event: " ++ l) r ≡ record r { event = l }
unfolding take_line cut value_of set_field text_eq
take-event l r = refl

take-id : (l : Text) (r : Received) → take_line (codes "id: " ++ l) r ≡ record r { last_id = l }
unfolding take_line cut value_of set_field text_eq
take-id l r = refl

module _ (r : Received) where
  read-line :
      (l rest : Text)
      → is_empty l ≡ false
      → has_break l ≡ false
      → read_frame r (split_at_char b'\n' (l ++ b'\n' ∷ rest))
        ≡ read_frame (take_line l r) (split_at_char b'\n' rest)
  unfolding read_frame
  read-line l rest some_text unbroken =
      ap (read_frame r) (
        split_at_char-append b'\n' l rest
        ∙ ap (λ ls. ls ++ split_at_char b'\n' rest) (split_at_char-piece b'\n' l unbroken))
      ∙ rw some_text refl

read-data :
    (r : Received) (ls : List Text) (rest : Text)
    → All (λ s. has_break s ≡ false) ls
    → read_frame r (split_at_char b'\n' (data_lines ls ++ rest))
      ≡ read_frame (record r { lines = r.lines ++ ls }) (split_at_char b'\n' rest)
unfolding data_lines exists_row is_empty
read-data r [] rest all =
    ap (λ ls. read_frame (record r { lines = ls }) (split_at_char b'\n' rest))
      (sym (append-nil r.lines))
read-data r (l ∷ ls) rest all =
    ap (λ t. read_frame r (split_at_char b'\n' t))
      (append_assoc (codes "data: " ++ l) (b'\n' ∷ data_lines ls) rest)
    ∙ read-line r (codes "data: " ++ l) (data_lines ls ++ rest) refl all.0
    ∙ ap (λ q. read_frame q (split_at_char b'\n' (data_lines ls ++ rest))) (take-data l r)
    ∙ read-data (record r { lines = r.lines ++ l ∷ [] }) ls rest all.1
    ∙ ap (λ ks. read_frame (record r { lines = ks }) (split_at_char b'\n' rest))
        (append_assoc r.lines (l ∷ []) ls)

-- What is sent of a payload.
abbrev pub sent : Text → Text
sent payload = if is_empty payload then codes "{}" else payload

abbrev pub sent_id : ℕ → Text
sent_id id = if ltb 0 id then decimal id else []

read-id :
    (id : ℕ) (rest : Text)
    → read_frame nothing_received (
        split_at_char b'\n'
          ((if ltb 0 id then codes "id: " ++ decimal id ++ b'\n' ∷ [] else []) ++ rest))
      ≡ read_frame (record nothing_received { last_id = sent_id id }) (split_at_char b'\n' rest)
unfolding exists_row is_empty
read-id id rest = elim (Bool-cases (ltb 0 id)) [
  | inl stored ↦ rw stored (
      ap (λ t. read_frame nothing_received (split_at_char b'\n' t))
        (append_assoc (codes "id: " ++ decimal id) (b'\n' ∷ []) rest)
      ∙ read-line nothing_received (codes "id: " ++ decimal id) rest refl
          (decimal-exists_row _ id λ c digit. ground arith)
      ∙ ap (λ q. read_frame q (split_at_char b'\n' rest)) (take-id (decimal id) nothing_received))
  | inr live ↦ rw live refl
]

-- The lines that a split gives have no separator.
split_at_char-unbroken : (t : Text) → All (λ s. has_break s ≡ false) (split_at_char b'\n' t)
unfolding split_at_char exists_row
split_at_char-unbroken [] = (refl, tt)
split_at_char-unbroken (c ∷ cs) =
    stepped (c == b'\n') (split_at_char b'\n' cs) refl (split_at_char-unbroken cs)
  where
    stepped :
        (b : Bool) (ls : List Text)
        → (c == b'\n') ≡ b
        → All (λ s. has_break s ≡ false) ls
        → All (λ s. has_break s ≡ false) (split_step b c ls)
    stepped true ls h all = (refl, all)
    stepped false [] h all = (rw h refl, tt)
    stepped false (l ∷ ls) h all = (rw h all.0, all.1)

-- Lines that were split are joined to the text again.
join-split_at_char : (t : Text) → join (codes "\n") (split_at_char b'\n' t) ≡ t
unfolding split_at_char join is_empty
join-split_at_char [] = refl
join-split_at_char (c ∷ cs) =
    stepped (c == b'\n') (split_at_char b'\n' cs) refl (split_at_char-is_empty b'\n' cs)
    ∙ ap (λ t. c ∷ t) (join-split_at_char cs)
  where
    stepped :
        (b : Bool) (ls : List Text)
        → (c == b'\n') ≡ b
        → is_empty ls ≡ false
        → join (codes "\n") (split_step b c ls) ≡ c ∷ join (codes "\n") ls
    stepped true [] h some_line = absurd cc
    stepped true (l ∷ ls) h some_line = let same : c ≡ b'\n' = ground arith in rw same refl
    stepped false [] h some_line = absurd cc
    stepped false (l ∷ []) h some_line = refl
    stepped false (l ∷ m ∷ ms) h some_line = refl

-- At line feeds alone, the frame is read back whatever follows it.
pub read_frame-fields :
    (id : ℕ) (event_type payload after : Text)
    → has_break event_type ≡ false
    → (r : Received) × (read_frame nothing_received
          (split_at_char b'\n' (write_frame id event_type payload ++ after))
        ≡ some (r, split_at_char b'\n' after))
      × (r.last_id ≡ sent_id id)
      × (r.event ≡ event_type)
      × (join (codes "\n") r.lines ≡ sent payload)
unfolding write_frame exists_row is_empty read_frame split_at_char split_step
read_frame-fields id event_type payload after unbroken =
    let ls = split_at_char b'\n' (sent payload) in
    let fields = data_lines ls in
    let first : Received = record nothing_received { last_id = sent_id id } in
    let named : Received = record first { event = event_type } in
    let shape : write_frame id event_type payload ++ after
        ≡ (if ltb 0 id then codes "id: " ++ decimal id ++ b'\n' ∷ [] else [])
          ++ (codes "event: " ++ event_type ++ b'\n' ∷ (fields ++ b'\n' ∷ after)) =
      simp append_assoc in
    (
      record named { lines = ls },
      ap (λ t. read_frame nothing_received (split_at_char b'\n' t)) shape
          ∙ read-id id (codes "event: " ++ event_type ++ b'\n' ∷ (fields ++ b'\n' ∷ after))
          ∙ read-line first (codes "event: " ++ event_type) (fields ++ b'\n' ∷ after) refl unbroken
          ∙ ap (λ q. read_frame q (split_at_char b'\n' (fields ++ b'\n' ∷ after)))
              (take-event event_type first)
          ∙ read-data named ls (b'\n' ∷ after) (split_at_char-unbroken (sent payload)),
      refl,
      refl,
      join-split_at_char (sent payload),
    )
