-- ===== src/Model/Response.antt =====
-- internal/model/model.go: a completed call, why one may be silent, and `absorb`, which reads the
-- API's terminal event.
use doota.Prelude.{
  ℕ, ◌+◌, Bool, true, false, not, ◌&&◌, ◌||◌, List, [], ◌∷◌, ◌++◌, ltb, if◌then◌else◌,
}
use doota.Prelude.Text.{Text, codes, trim_space, is_empty}
use doota.Store.Schema.{ToolCall, ReasoningItem}

pub record Usage : Type 0 where
  pub prompt_tokens : ℕ
  pub completion_tokens : ℕ
  pub reasoning_tokens : ℕ

unfoldable pub total_tokens : Usage → ℕ
total_tokens u = u.prompt_tokens + u.completion_tokens

pub record Response : Type 0 where
  pub content : Text
  pub tool_calls : List ToolCall
  pub finish_reason : Text
  pub usage : Usage
  pub model : Text
  pub reasoning : List ReasoningItem
  pub truncated : Bool
  pub filtered : Bool
  pub usage_reported : Bool

unfoldable pub is_silent : Response → Bool
unfolding is_empty trim_space
is_silent r = is_empty (trim_space r.content) && is_empty r.tool_calls

pub data SilentCause : Type 0 where
  not_silent silent_truncated silent_filtered silent_reasoning silent_unknown : SilentCause

unfoldable pub silent_cause : Response → SilentCause
silent_cause r =
    if not (is_silent r)
    then not_silent
    else if r.filtered
    then silent_filtered
    else if r.truncated
    then silent_truncated
    else if r.usage_reported && ltb 0 r.usage.completion_tokens
    then silent_reasoning
    else silent_unknown

-- The terminal event of the SDK, as far as `absorb` reads it.
pub data IncompleteReason : Type 0 where
  max_output_tokens content_filter other_reason : IncompleteReason

pub data OutputItem : Type 0 where
  reasoning_item : ReasoningItem → OutputItem
  function_call : ToolCall → OutputItem
  message_item : List Text → OutputItem
  other_item : OutputItem

pub record Final : Type 0 where
  pub model : Text
  pub status : Text
  pub incomplete : IncompleteReason
  pub total : ℕ
  pub usage : Usage
  pub output : List OutputItem

abbrev ran_out : IncompleteReason → Bool
ran_out max_output_tokens = true
ran_out _ = false

abbrev was_filtered : IncompleteReason → Bool
was_filtered content_filter = true
was_filtered _ = false

-- The summaries that hold text.
unfoldable pub nonempty : List Text → List Text
unfolding is_empty
nonempty [] = []
nonempty (t ∷ ts) = let rest = nonempty ts in if is_empty t then rest else t ∷ rest

unfoldable pub concat : List Text → Text
concat [] = []
concat (t ∷ ts) = t ++ concat ts

-- An argument-less call gets an empty object.
unfoldable pub args_or_object : Text → Text
unfolding is_empty trim_space
args_or_object t = if is_empty (trim_space t) then codes "{}" else trim_space t

-- One round of the loop over the output items.
unfoldable pub absorb_item : Response → OutputItem → Response
unfolding is_empty trim_space nonempty concat args_or_object
absorb_item r (reasoning_item i) =
    let kept : ReasoningItem = record i { summary = nonempty i.summary } in
    if not (is_empty kept.encrypted_content) || not (is_empty kept.summary)
    then record r { reasoning = r.reasoning ++ kept ∷ [] }
    else r
absorb_item r (function_call c) = record r {
  tool_calls = r.tool_calls ++ record c { args = args_or_object c.args } ∷ [];
}
absorb_item r (message_item parts) =
    if is_empty (trim_space r.content) then record r { content = concat parts } else r
absorb_item r other_item = r

unfoldable pub absorb_items : Response → List OutputItem → Response
unfolding absorb_item
absorb_items r [] = r
absorb_items r (i ∷ is) = absorb_items (absorb_item r i) is

-- The fields that are read before the output items.
unfoldable pub absorb_head : Response → Final → Response
unfolding is_empty
absorb_head r f = record r {
  model = if is_empty f.model then r.model else f.model;
  finish_reason = f.status;
  truncated = ran_out f.incomplete || r.truncated;
  filtered = was_filtered f.incomplete || r.filtered;
  usage_reported = (ltb 0 f.total || ltb 0 f.usage.prompt_tokens) || r.usage_reported;
  usage = if ltb 0 f.total || ltb 0 f.usage.prompt_tokens then f.usage else r.usage;
}

unfoldable pub absorb : Response → Final → Response
unfolding absorb_head absorb_items
absorb r f = absorb_items (absorb_head r f) f.output
