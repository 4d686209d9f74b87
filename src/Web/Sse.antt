-- ===== src/Web/Sse.antt =====
-- internal/web/sse.go: what one browser is sent of the events, and how a frame is written. The
-- payload of a row is encoded by a parameter; comments and heartbeats are left out.
use doota.Prelude.{ℕ, Bool, true, false, List, [], ◌∷◌, ◌++◌, none, some, ltb, if◌then◌else◌}
use doota.Prelude.Text.{Text, codes, decimal, is_empty, trim_space, split_at_char}
use doota.Store.Schema.{Db, Event, Payload}
use doota.Store.Transcript.{events_since}
use doota.Web.Session.{parse_int}

abbrev pub replay_limit : ℕ
replay_limit = 500

unfoldable pub data_lines : List Text → Text
data_lines [] = []
data_lines (l ∷ ls) = codes "data: " ++ l ++ b'\n' ∷ data_lines ls

-- `writeFrame`.
unfoldable pub write_frame : ℕ → Text → Text → Text
unfolding data_lines split_at_char is_empty
write_frame id event_type payload =
    (if ltb 0 id then codes "id: " ++ decimal id ++ b'\n' ∷ [] else [])
    ++ codes "event: "
    ++ event_type
    ++ b'\n' ∷ []
    ++ data_lines (split_at_char b'\n' (if is_empty payload then codes "{}" else payload))
    ++ b'\n' ∷ []

abbrev is_negative : Bool × ℕ → Bool
is_negative (true, n) = ltb 0 n
is_negative (false, n) = false

-- `replay`: the rows that are written.
unfoldable pub replay : ℕ → Text → Db → List Event
unfolding parse_int trim_space
replay pid last_event_id db = elim (parse_int (trim_space last_event_id)) [
  | none ↦ []
  | some time ↦ if is_negative time then [] else events_since pid time.1 replay_limit db
]

unfoldable pub write_event : (Payload → Text) → Event → Text
unfolding write_frame
write_event encode e = write_frame e.id (codes e.type_name) (encode e.payload)

unfoldable pub write_events : (Payload → Text) → List Event → Text
unfolding write_event
write_events encode [] = []
write_events encode (e ∷ es) = write_event encode e ++ write_events encode es
