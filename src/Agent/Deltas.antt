-- ===== src/Agent/Deltas.antt =====
-- What the frames of a batch hold, however its users interleave.
use doota.Prelude.{
  ◌≡◌, refl, sym, ap, ◌∙◌, Bool, true, false, List, [], ◌∷◌, ◌++◌, append-nil, append_assoc,
  Bool-cases, inl, inr, if◌then◌else◌,
}
use doota.Prelude.Text.{Text, is_empty}
use doota.Store.Schema.{Payload, delta_payload}
use doota.Events.Hub.{Hub, Frame}
use doota.Agent.Delta.{
  DeltaBatch, new_delta_batch, add, take_text, mark_closed, delta_frame, delta_frames, flush, close,
  publish_frames,
}

-- What takes the mutex: the stream's `add`, a `flush` of the timer or of `close`, and `close`.
pub data BatchStep : Type 0 where
  adds : Text → BatchStep
  flushes closes : BatchStep

-- The frames of the texts that are taken, in that order, and the batch that is left.
unfoldable pub batch_run : List BatchStep → DeltaBatch → List Frame × DeltaBatch
unfolding add take_text delta_frames mark_closed
batch_run [] b = ([], b)
batch_run (BatchStep.adds d ∷ steps) b = batch_run steps (add d b)
batch_run (BatchStep.closes ∷ steps) b = batch_run steps (mark_closed b)
batch_run (BatchStep.flushes ∷ steps) b =
    let (text, b') = take_text b in
    let (frames, last) = batch_run steps b' in (delta_frames text ++ frames, last)

-- The text that was given to `add` while the batch was open.
unfoldable pub added : List BatchStep → Bool → Text
added [] closed = []
added (BatchStep.adds d ∷ steps) closed =
    let rest = added steps closed in if closed then rest else d ++ rest
added (BatchStep.closes ∷ steps) closed = added steps true
added (BatchStep.flushes ∷ steps) closed = added steps closed

abbrev pub delta_text : Payload → Text
delta_text p = elim p [ delta_payload t ↦ t | _ ↦ [] ]

-- What a browser shows that appends each frame's text.
unfoldable pub shown_text : List Frame → Text
shown_text [] = []
shown_text (f ∷ fs) = delta_text f.payload ++ shown_text fs

shown_text-delta_frames :
    (t : Text) (fs : List Frame) → shown_text (delta_frames t ++ fs) ≡ t ++ shown_text fs
unfolding shown_text delta_frames delta_frame is_empty
shown_text-delta_frames [] fs = refl
shown_text-delta_frames (c ∷ t) fs = refl

-- A closed batch with no text shows nothing more.
batch_run-closed :
    (steps : List BatchStep) (timer : Bool)
    → shown_text (batch_run steps (record { buf = []; timer = timer; closed = true })).0 ≡ []
unfolding batch_run shown_text add take_text mark_closed
batch_run-closed [] timer = refl
batch_run-closed (BatchStep.adds d ∷ steps) timer = batch_run-closed steps timer
batch_run-closed (BatchStep.closes ∷ steps) timer = batch_run-closed steps false
batch_run-closed (BatchStep.flushes ∷ steps) timer =
    shown_text-delta_frames []
      (batch_run steps (record { buf = []; timer = false; closed = true })).0
    ∙ batch_run-closed steps false

-- The next flush of a closed batch shows its text, whatever else takes the mutex before.
batch_run-closing :
    (between later : List BatchStep) (t : Text) (timer : Bool)
    → shown_text
        (batch_run
          (between ++ BatchStep.flushes ∷ later)
          (record { buf = t; timer = timer; closed = true })).0
      ≡ t
unfolding batch_run add take_text mark_closed
batch_run-closing [] later t timer =
    shown_text-delta_frames t
      (batch_run later (record { buf = []; timer = false; closed = true })).0
    ∙ ap (λ u. t ++ u) (batch_run-closed later false)
    ∙ append-nil t
batch_run-closing (BatchStep.adds d ∷ between) later t timer =
    batch_run-closing between later t timer
batch_run-closing (BatchStep.closes ∷ between) later t timer =
    batch_run-closing between later t false
batch_run-closing (BatchStep.flushes ∷ between) later t timer =
    shown_text-delta_frames t _
    ∙ ap (λ u. t ++ u) (batch_run-closed (between ++ BatchStep.flushes ∷ later) false)
    ∙ append-nil t

shown_text-batch_run :
    (before between later : List BatchStep) (b : DeltaBatch)
    → shown_text
        (batch_run (before ++ BatchStep.closes ∷ (between ++ BatchStep.flushes ∷ later)) b).0
      ≡ b.buf ++ added before b.closed
unfolding batch_run added add take_text mark_closed
shown_text-batch_run [] between later b =
    batch_run-closing between later b.buf false ∙ sym (append-nil b.buf)
shown_text-batch_run (BatchStep.adds d ∷ before) between later b = elim (Bool-cases b.closed) [
  | inl shut ↦ rw shut (shown_text-batch_run before between later (record b { closed = true }))
  | inr opened ↦ rw opened (
      shown_text-batch_run before between later
        (record { buf = b.buf ++ d; timer = true; closed = false })
      ∙ append_assoc b.buf d (added before false))
]
shown_text-batch_run (BatchStep.closes ∷ before) between later b =
    shown_text-batch_run before between later (mark_closed b)
shown_text-batch_run (BatchStep.flushes ∷ before) between later b =
    shown_text-delta_frames b.buf _
    ∙ ap (λ t. b.buf ++ t) (shown_text-batch_run before between later (take_text b).1)

-- Whatever order `add`, the timer's flushes and other closes take the mutex in, before a close,
-- between its two halves and after it, nothing is left behind: the frames, in the order in which
-- their texts were taken, hold exactly the text added while the batch was open, each part once.
pub batch_run-added :
    (before between later : List BatchStep)
    → shown_text
        (batch_run
          (before ++ BatchStep.closes ∷ (between ++ BatchStep.flushes ∷ later))
          new_delta_batch).0
      ≡ added before false
unfolding new_delta_batch
batch_run-added before between later = shown_text-batch_run before between later new_delta_batch

-- A flush or a close publishes to the hub what these steps of it take.
pub flush-batch_run :
    (b : DeltaBatch) (h : Hub)
    → (flush b h ≡ let (fs, b') = batch_run (BatchStep.flushes ∷ []) b in (b', publish_frames fs h))
      × (close b h
          ≡ let (fs, b') = batch_run (BatchStep.closes ∷ BatchStep.flushes ∷ []) b in
            (b', publish_frames fs h))
unfolding flush close batch_run
flush-batch_run b h = (
  ap (λ fs. ((take_text b).1, publish_frames fs h)) (sym (append-nil (delta_frames b.buf))),
  ap (λ fs. ((take_text (mark_closed b)).1, publish_frames fs h))
      (sym (append-nil (delta_frames b.buf))),
)
