-- ===== src/Model/Input.antt =====
-- internal/model/model.go, `inputItems` and `imageMessage`: the conversation as the API's items.
use doota.Prelude.{
  ℕ, List, [], ◌∷◌, ◌++◌, Option, none, some, if◌then◌else◌, ltb, length, ◌*◌, ◌^◌, ◌==◌, map,
}
use doota.Prelude.Text.{Text, codes, trim_space, is_empty}
use doota.Store.Schema.{ReasoningItem, Role, ToolCall, system, user, assistant, tool}

-- The bytes of an attached picture; its type is left out.
pub record ModelMessage : Type 0 where
  pub role : Role
  pub content : Text
  pub tool_calls : List ToolCall
  pub images : List Text
  pub reasoning : List ReasoningItem
  pub tool_call_id : ℕ

pub data InputItem : Type 0 where
  text_item : Role → Text → InputItem
  image_item : Option Text → List Text → InputItem
  reasoning_input : ReasoningItem → InputItem
  call_input : ToolCall → InputItem
  call_output : ℕ → Text → InputItem

pub data ImageFault : Type 0 where
  no_data : ImageFault
  too_large : ℕ → ImageFault

abbrev pub max_image_bytes : ℕ
max_image_bytes = 5 * 2 ^ 20

-- The first fault of the images in order, if there is one.
unfoldable pub image_fault : List Text → Option ImageFault
unfolding is_empty
image_fault [] = none
image_fault (i ∷ is) =
    let rest = image_fault is in
    if is_empty i
    then some no_data
    else if ltb max_image_bytes (length i)
    then some (too_large (length i))
    else rest

abbrev pub visible : Text → Option Text
visible t = if is_empty (trim_space t) then none else some t

unfoldable pub image_message : ModelMessage → Option InputItem
unfolding image_fault
image_message m = elim (image_fault m.images) [
  | some _ ↦ none
  | none ↦ some (image_item (visible m.content) m.images)
]

abbrev pub sent_call : ToolCall → InputItem
sent_call c =
    call_input (if is_empty (trim_space c.args) then record c { args = codes "{}" } else c)

-- The items of an assistant turn: its reasoning, its text, its calls.
unfoldable pub assistant_items : ModelMessage → List InputItem
assistant_items m =
    map reasoning_input m.reasoning
    ++ ((if is_empty (trim_space m.content) then [] else text_item assistant m.content ∷ [])
        ++ map sent_call m.tool_calls)

unfoldable pub items_by_role : Role → ModelMessage → Option (List InputItem)
unfolding image_message assistant_items
items_by_role system m = some (text_item system m.content ∷ [])
items_by_role assistant m = some (assistant_items m)
items_by_role tool m = some (call_output m.tool_call_id m.content ∷ [])
items_by_role user m =
    if is_empty m.images
    then some (text_item user m.content ∷ [])
    else elim (image_message m) [ none ↦ none | some i ↦ some (i ∷ []) ]

-- `none` where an attached image is refused.
unfoldable pub input_items : List ModelMessage → Option (List InputItem)
unfolding items_by_role
input_items [] = some []
input_items (m ∷ ms) =
    let rest = input_items ms in
    elim (items_by_role m.role m) [
      | none ↦ none
      | some is ↦ elim rest [ none ↦ none | some js ↦ some (is ++ js) ]
    ]

abbrev pub max_output_budget : ℕ
max_output_budget = 131072

-- The clamp of `params`; no budget is sent for 0.
unfoldable pub output_budget : ℕ → Option ℕ
output_budget n =
    if n == 0 then none else if ltb max_output_budget n then some max_output_budget else some n
