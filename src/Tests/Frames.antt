-- ===== src/Tests/Frames.antt =====
-- The hub and the model's answers on sample data.
use doota.Prelude.{◌≡◌, refl, [], ◌∷◌, some, arith, take}
use doota.Prelude.Text.{codes}
use doota.Store.Schema.{delta_payload, user}
use doota.Events.Hub.{Frame, Hub, subscriber_buffer, receive, queue_of}
use doota.Events.Delivery.{publish_all, publish_all-queue_of, receive-queue_of}
use doota.Model.Response.{Final, function_call, message_item, other_reason}
use doota.Model.Input.{ModelMessage}
use doota.Tests.Fixtures.{spoken, read_call}

abbrev frame : Frame
frame = record { id = 3; type_name = "run.state"; payload = delta_payload [] }

abbrev delta : Frame
delta = record { id = 0; type_name = "message.delta"; payload = delta_payload (codes "Hi") }

abbrev busy_hub : Hub
busy_hub = record { next = 2; clients = record { id = 2; frames = frame ∷ [] } ∷ []; dropped = 0 }

publish_all-queue_of_example :
    queue_of 2 (publish_all (delta ∷ frame ∷ []) busy_hub).clients
    ≡ some (take subscriber_buffer (frame ∷ delta ∷ frame ∷ []))
unfolding queue_of
publish_all-queue_of_example =
    publish_all-queue_of (delta ∷ frame ∷ []) busy_hub 2 (frame ∷ []) (omega arith) refl

receive-queue_of_example :
    (h' : Hub) × (receive 2 busy_hub ≡ some (frame, h')) × (queue_of 2 h'.clients ≡ some [])
unfolding queue_of
receive-queue_of_example = receive-queue_of busy_hub 2 frame [] refl

abbrev answer : Final
answer = record {
  model = codes "m";
  status = codes "completed";
  incomplete = other_reason;
  total = 14;
  usage = spoken.usage;
  output = function_call read_call ∷ message_item (codes "Hi" ∷ []) ∷ [];
}

abbrev said : ModelMessage
said = record {
  role = user;
  content = codes "Fix it";
  tool_calls = [];
  images = [];
  reasoning = [];
  tool_call_id = 0;
}
