-- ===== src/Model/Stream.antt =====
-- internal/model/model.go: the loop of `Stream` over the events of one call, and what it returns.
-- The events are those of the SDK; the request, its checks and the client are left out.
use doota.Prelude.{
  ℕ, false, List, [], ◌∷◌, ◌++◌, Option, none, some, ◌==◌, if◌then◌else◌, exists_row,
}
use doota.Prelude.Text.{Text, codes, is_empty}
use doota.Model.Response.{Response, Final, absorb}

pub data StreamEvent : Type 0 where
  text_delta : Text → StreamEvent
  call_added : ℕ → Text → StreamEvent
  completed incomplete : Final → StreamEvent
  failed : Final → Text → StreamEvent
  error_frame : Text → StreamEvent
  other_event : StreamEvent

-- What the handler is told.
pub data Told : Type 0 where
  told_text told_call : Text → Told

-- The variables of the loop; `told` is in the order of the events.
pub record Assembly : Type 0 where
  pub text : Text
  pub announced : List ℕ
  pub final : Option Final
  pub stream_error : Option Text
  pub told : List Told

abbrev pub assembly : Assembly
assembly = record { text = []; announced = []; final = none; stream_error = none; told = [] }

unfoldable pub or_detail : Text → Text → Text
unfolding is_empty
or_detail prefix message =
    if is_empty message then prefix ++ codes " with no detail" else prefix ++ codes ": " ++ message

-- `Handler.toolCall`.
unfoldable pub call_told : Text → List Told
unfolding is_empty
call_told name = if is_empty name then [] else told_call name ∷ []

-- One event.
unfoldable pub take_event : Assembly → StreamEvent → Assembly
unfolding is_empty exists_row or_detail call_told
take_event a (text_delta delta) =
    if is_empty delta
    then a
    else record a { text = a.text ++ delta; told = a.told ++ told_text delta ∷ [] }
take_event a (call_added id name) =
    if exists_row (λ k. k == id) a.announced
    then a
    else record a { announced = id ∷ a.announced; told = a.told ++ call_told name }
take_event a (completed f) = record a { final = some f }
take_event a (incomplete f) = record a { final = some f }
take_event a (failed f message) = record a {
  final = some f;
  stream_error = some (or_detail (codes "model reported failure") message);
}
take_event a (error_frame message) = record a {
  stream_error = some (or_detail (codes "model stream error") message);
}
take_event a other_event = a

unfoldable pub take_events : Assembly → List StreamEvent → Assembly
unfolding take_event
take_events a [] = a
take_events a (e ∷ es) = take_events (take_event a e) es

-- The response before the terminal payload is read.
unfoldable pub started : Text → Text → Response
started model text = record {
  content = text;
  tool_calls = [];
  finish_reason = [];
  usage = record { prompt_tokens = 0; completion_tokens = 0; reasoning_tokens = 0 };
  model = model;
  reasoning = [];
  truncated = false;
  filtered = false;
  usage_reported = false;
}

-- What is returned after the loop; `broken` is `stream.Err()`.
unfoldable pub assembled : Text → Option Text → Assembly → Response × Option Text
unfolding started absorb
assembled model broken a =
    let resp = started model a.text in
    elim broken [
      | some e ↦ (resp, some (codes "model stream: " ++ e))
      | none ↦ elim a.stream_error [
        | some e ↦ elim a.final [ none ↦ (resp, some e) | some f ↦ (absorb resp f, some e) ]
        | none ↦ elim a.final [
          | none ↦ (resp, some (codes "model stream ended without completing"))
          | some f ↦ (absorb resp f, none)
        ]
      ]
    ]

unfoldable pub stream : Text → List StreamEvent → Option Text → Response × Option Text
unfolding take_events assembled
stream model events broken = assembled model broken (take_events assembly events)
