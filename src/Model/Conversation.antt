-- ===== src/Model/Conversation.antt =====
-- What `absorb` takes from an answer, and how `inputItems` sends a conversation.
use doota.Prelude.{
  ℕ, ◌≤◌, ◌≡◌, refl, ap, sym, ◌∙◌, Bool, true, false, List, [], ◌∷◌, ◌++◌, Option, none, some,
  arith, if◌then◌else◌, append-nil, append_assoc,
}
use doota.Prelude.Text.{is_empty, trim_space}
use doota.Store.Schema.{ToolCall}
use doota.Model.Response.{
  Response, OutputItem, reasoning_item, function_call, message_item, other_item, Final,
  args_or_object, absorb_item, absorb_items, absorb_head, absorb, concat,
}
use doota.Model.Input.{
  ModelMessage, InputItem, items_by_role, input_items, max_output_budget, output_budget,
}

-- The calls among the output items, in order.
unfoldable pub calls_in : List OutputItem → List ToolCall
calls_in [] = []
calls_in (function_call c ∷ is) = record c { args = args_or_object c.args } ∷ calls_in is
calls_in (reasoning_item i ∷ is) = calls_in is
calls_in (message_item t ∷ is) = calls_in is
calls_in (other_item ∷ is) = calls_in is

same_calls :
    (b : Bool) (r r' : Response)
    → r'.tool_calls ≡ r.tool_calls
    → (if b then r' else r).tool_calls ≡ r.tool_calls
same_calls true r r' h = h
same_calls false r r' h = refl

absorb_items-tool_calls :
    (r : Response) (is : List OutputItem)
    → (absorb_items r is).tool_calls ≡ r.tool_calls ++ calls_in is
unfolding absorb_items absorb_item calls_in
absorb_items-tool_calls r [] = sym (append-nil r.tool_calls)
absorb_items-tool_calls r (function_call c ∷ is) =
    absorb_items-tool_calls (absorb_item r (function_call c)) is
    ∙ append_assoc r.tool_calls (record c { args = args_or_object c.args } ∷ []) (calls_in is)
absorb_items-tool_calls r (reasoning_item i ∷ is) =
    absorb_items-tool_calls (absorb_item r (reasoning_item i)) is
    ∙ ap (λ cs. cs ++ calls_in is) (same_calls _ r _ refl)
absorb_items-tool_calls r (message_item t ∷ is) =
    absorb_items-tool_calls (absorb_item r (message_item t)) is
    ∙ ap (λ cs. cs ++ calls_in is)
        (same_calls (is_empty (trim_space r.content)) r (record r { content = concat t }) refl)
absorb_items-tool_calls r (other_item ∷ is) = absorb_items-tool_calls r is

-- The calls of an absorbed answer are those collected before, then the answer's own in their order,
-- an argument that is blank read as the empty object.
pub absorb-tool_calls :
    (r : Response) (f : Final) → (absorb r f).tool_calls ≡ r.tool_calls ++ calls_in f.output
unfolding absorb absorb_head
absorb-tool_calls r f = absorb_items-tool_calls (absorb_head r f) f.output

-- Two lists of items one after the other, where both could be built.
abbrev pub joined : Option (List InputItem) → Option (List InputItem) → Option (List InputItem)
joined none js = none
joined (some is) none = none
joined (some is) (some js) = some (is ++ js)

-- The items of a conversation are those of its parts in order, and an image that is refused in one
-- part refuses the whole.
pub input_items-append :
    (ms ns : List ModelMessage) → input_items (ms ++ ns) ≡ joined (input_items ms) (input_items ns)
unfolding input_items
input_items-append [] ns = whole (input_items ns)
  where
    whole : (js : Option (List InputItem)) → js ≡ joined (some []) js
    whole none = refl
    whole (some js) = refl
input_items-append (m ∷ ms) ns =
    ap
      (λ (rest : Option (List InputItem)).
        elim (items_by_role m.role m) as (λ _. Option (List InputItem)) [
          | none ↦ none
          | some is ↦ elim rest as (λ _. Option (List InputItem)) [
            | none ↦ none
            | some js ↦ some (is ++ js)
          ]
        ])
      (input_items-append ms ns)
    ∙ first (items_by_role m.role m) (input_items ms) (input_items ns)
  where
    first :
        (is ms ns : Option (List InputItem))
        → elim is as (λ _. Option (List InputItem)) [
          | none ↦ none
          | some is ↦ elim (joined ms ns) as (λ _. Option (List InputItem)) [
            | none ↦ none
            | some js ↦ some (is ++ js)
          ]
        ]
          ≡ joined
              (elim is as (λ _. Option (List InputItem)) [
                | none ↦ none
                | some is ↦ elim ms as (λ _. Option (List InputItem)) [
                  | none ↦ none
                  | some js ↦ some (is ++ js)
                ]
              ])
              ns
    first none ms ns = refl
    first (some is) none ns = refl
    first (some is) (some js) none = refl
    first (some is) (some js) (some ks) = ap some (sym (append_assoc is js ks))

-- A budget that is sent is positive, is no more than was asked for, and fits the limit.
pub output_budget-bound :
    (n k : ℕ) → output_budget n ≡ some k → (1 ≤ k) × (k ≤ n) × (k ≤ max_output_budget)
unfolding output_budget
output_budget-bound n k h = (ground arith, ground arith, ground arith)
