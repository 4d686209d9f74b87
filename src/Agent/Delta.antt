-- ===== src/Agent/Delta.antt =====
-- internal/agent/agent.go, `deltaBatch`: the text of a streaming answer, gathered into frames. Each
-- part that holds the mutex is one function; `timer` says whether a flush is due.
use doota.Prelude.{Bool, true, false, List, [], ◌∷◌, ◌++◌, if◌then◌else◌}
use doota.Prelude.Text.{Text, is_empty}
use doota.Store.Schema.{delta_payload}
use doota.Events.Hub.{Hub, Frame, publish}

pub record DeltaBatch : Type 0 where
  pub buf : Text
  pub timer : Bool
  pub closed : Bool

unfoldable pub new_delta_batch : DeltaBatch
new_delta_batch = record { buf = []; timer = false; closed = false }

unfoldable pub add : Text → DeltaBatch → DeltaBatch
add delta b = if b.closed then b else record b { buf = b.buf ++ delta; timer = true }

-- The first half of `flush`, up to the release of the mutex.
unfoldable pub take_text : DeltaBatch → Text × DeltaBatch
take_text b = (b.buf, record b { buf = []; timer = false })

unfoldable pub delta_frame : Text → Frame
delta_frame text = record { id = 0; type_name = "message.delta"; payload = delta_payload text }

-- The second half: an empty text is not published.
unfoldable pub delta_frames : Text → List Frame
delta_frames text = if is_empty text then [] else delta_frame text ∷ []

unfoldable pub publish_frames : List Frame → Hub → Hub
publish_frames [] h = h
publish_frames (f ∷ fs) h = publish_frames fs (publish f h)

unfoldable pub flush : DeltaBatch → Hub → DeltaBatch × Hub
unfolding take_text delta_frames publish_frames
flush b h = let (text, b') = take_text b in (b', publish_frames (delta_frames text) h)

-- The first half of `close`.
unfoldable pub mark_closed : DeltaBatch → DeltaBatch
mark_closed b = record b { timer = false; closed = true }

unfoldable pub close : DeltaBatch → Hub → DeltaBatch × Hub
unfolding flush mark_closed
close b h = flush (mark_closed b) h
