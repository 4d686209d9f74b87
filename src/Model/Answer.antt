-- ===== src/Model/Answer.antt =====
-- What `Stream` returns.
use doota.Prelude.{
  ◌≡◌, refl, ap, ◌∙◌, Bool, true, false, not, ◌||◌, List, [], ◌∷◌, ◌++◌, Option, none, some,
  if◌then◌else◌, exists_row,
}
use doota.Prelude.Text.{Text, codes, is_empty, trim_space}
use doota.Model.Response.{
  Response, OutputItem, reasoning_item, function_call, message_item, other_item, Final, absorb_item,
  absorb_items, absorb_head, absorb,
}
use doota.Model.Stream.{StreamEvent, Assembly, assembly, take_events, assembled, started, stream}
use doota.Model.Assembly.{texts_of, watched, is_fault, is_terminal, is_some, take_events-Adds}

kept_content :
    (b : Bool) (r r' : Response)
    → r'.content ≡ r.content
    → (if b then r' else r).content ≡ r.content
kept_content true r r' h = h
kept_content false r r' h = refl

absorb_item-content :
    (r : Response) (i : OutputItem)
    → is_empty (trim_space r.content) ≡ false
    → (absorb_item r i).content ≡ r.content
unfolding absorb_item
absorb_item-content r (reasoning_item i) h = kept_content _ r _ refl
absorb_item-content r (function_call c) h = refl
absorb_item-content r (message_item parts) h = rw h refl
absorb_item-content r other_item h = refl

absorb_items-content :
    (r : Response) (is : List OutputItem)
    → is_empty (trim_space r.content) ≡ false
    → (absorb_items r is).content ≡ r.content
unfolding absorb_items
absorb_items-content r [] h = refl
absorb_items-content r (i ∷ is) h =
    let same = absorb_item-content r i h in
    absorb_items-content (absorb_item r i) is (ap (λ t. is_empty (trim_space t)) same ∙ h) ∙ same

assembled-content :
    (model : Text) (broken : Option Text) (a : Assembly)
    → is_empty (trim_space a.text) ≡ false
    → (assembled model broken a).0.content ≡ a.text
unfolding assembled absorb absorb_head started
assembled-content model broken a h = by_end broken a.stream_error a.final
  where
    resp : Response
    resp = started model a.text

    absorbed : (f : Final) → (absorb resp f).content ≡ a.text
    absorbed f = absorb_items-content (absorb_head resp f) f.output h

    by_end :
        (broken error : Option Text) (final : Option Final)
        → (elim broken as (λ _. Response × Option Text) [
          | some e ↦ (resp, some (codes "model stream: " ++ e))
          | none ↦ elim error [
            | some e ↦ elim final [ none ↦ (resp, some e) | some f ↦ (absorb resp f, some e) ]
            | none ↦ elim final [
              | none ↦ (resp, some (codes "model stream ended without completing"))
              | some f ↦ (absorb resp f, none)
            ]
          ]
        ]).0.content
          ≡ a.text
    by_end (some e) error final = refl
    by_end none (some e) none = refl
    by_end none (some e) (some f) = absorbed f
    by_end none none none = refl
    by_end none none (some f) = absorbed f

-- However a call ends, where the deltas were not blank the answer's content is their text, and it is
-- the text that the handler was told while the call ran.
pub stream-content :
    (model : Text) (events : List StreamEvent) (broken : Option Text)
    → is_empty (trim_space (texts_of events)) ≡ false
    → ((stream model events broken).0.content ≡ texts_of events)
      × (watched (take_events assembly events).told ≡ texts_of events)
unfolding stream watched
stream-content model events broken h =
    let adds = take_events-Adds assembly events in
    (
      assembled-content model broken (take_events assembly events)
            (ap (λ t. is_empty (trim_space t)) adds.text_grows ∙ h)
          ∙ adds.text_grows,
      adds.told_grows,
    )

assembled-error :
    (model : Text) (broken : Option Text) (a : Assembly)
    → is_some (assembled model broken a).1
      ≡ (is_some broken || (is_some a.stream_error || not (is_some a.final)))
unfolding assembled
assembled-error model broken a = by_end broken a.stream_error a.final
  where
    resp : Response
    resp = started model a.text

    by_end :
        (broken error : Option Text) (final : Option Final)
        → is_some (
            (elim broken as (λ _. Response × Option Text) [
              | some e ↦ (resp, some (codes "model stream: " ++ e))
              | none ↦ elim error [
                | some e ↦ elim final [ none ↦ (resp, some e) | some f ↦ (absorb resp f, some e) ]
                | none ↦ elim final [
                  | none ↦ (resp, some (codes "model stream ended without completing"))
                  | some f ↦ (absorb resp f, none)
                ]
              ]
            ]).1)
          ≡ (is_some broken || (is_some error || not (is_some final)))
    by_end (some e) error final = refl
    by_end none (some e) none = refl
    by_end none (some e) (some f) = refl
    by_end none none none = refl
    by_end none none (some f) = refl

-- A call returns an error exactly where the stream broke, an event reported a failure or an error,
-- or no event carried a terminal payload.
pub stream-error :
    (model : Text) (events : List StreamEvent) (broken : Option Text)
    → is_some (stream model events broken).1
      ≡ (is_some broken || (exists_row is_fault events || not (exists_row is_terminal events)))
unfolding stream
stream-error model events broken =
    let adds = take_events-Adds assembly events in
    assembled-error model broken (take_events assembly events)
    ∙ ap (λ b. is_some broken || (b || not (is_some (take_events assembly events).final)))
        adds.faults
    ∙ ap (λ b. is_some broken || (exists_row is_fault events || not b)) adds.ends
