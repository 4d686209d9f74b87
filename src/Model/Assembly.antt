-- ===== src/Model/Assembly.antt =====
-- What a streamed answer holds, and when it counts as finished.
use doota.Prelude.{
  ◌≡◌, refl, sym, ap, ◌∙◌, Bool, true, false, ◌||◌, List, [], ◌∷◌, ◌++◌, Option, none, some, arith,
  if◌then◌else◌, exists_row, append_assoc, append-nil, ◌==◌,
}
use doota.Prelude.Text.{Text}
use doota.Model.Stream.{
  StreamEvent, text_delta, call_added, completed, incomplete, failed, error_frame, other_event,
  Assembly, Told, call_told, told_text, told_call, take_event, take_events,
}

-- The text of the deltas.
unfoldable pub texts_of : List StreamEvent → Text
texts_of [] = []
texts_of (text_delta t ∷ es) = t ++ texts_of es
texts_of (_ ∷ es) = texts_of es

-- The text that the handler was told.
unfoldable pub watched : List Told → Text
watched [] = []
watched (told_text t ∷ ts) = t ++ watched ts
watched (told_call _ ∷ ts) = watched ts

abbrev pub is_fault : StreamEvent → Bool
is_fault (failed _ _) = true
is_fault (error_frame _) = true
is_fault _ = false

abbrev pub is_terminal : StreamEvent → Bool
is_terminal (completed _) = true
is_terminal (incomplete _) = true
is_terminal (failed _ _) = true
is_terminal _ = false

abbrev pub is_some : {A : Type 0} → Option A → Bool
is_some none = false
is_some (some _) = true

watched-append : (ts us : List Told) → watched (ts ++ us) ≡ watched ts ++ watched us
unfolding watched
watched-append [] us = refl
watched-append (told_text t ∷ ts) us =
    ap (λ s. t ++ s) (watched-append ts us) ∙ sym (append_assoc t (watched ts) (watched us))
watched-append (told_call t ∷ ts) us = watched-append ts us

-- The name of a call is no text of the answer.
unwatched : (name : Text) → watched (call_told name) ≡ []
unfolding watched call_told
unwatched name = ground arith

-- What some events add to what is collected: text, a fault, a terminal payload.
pub record Adds (a b : Assembly) (t : Text) (fault terminal : Bool) : Type 0 where
  pub text_grows : b.text ≡ a.text ++ t
  pub told_grows : watched b.told ≡ watched a.told ++ t
  pub faults : is_some b.stream_error ≡ (is_some a.stream_error || fault)
  pub ends : is_some b.final ≡ (is_some a.final || terminal)

or-false : (b : Bool) → b ≡ (b || false)
or-false true = refl
or-false false = refl

or-true : (b : Bool) → true ≡ (b || true)
or-true true = refl
or-true false = refl

or_assoc : (a b c : Bool) → ((a || b) || c) ≡ (a || (b || c))
or_assoc true b c = refl
or_assoc false b c = refl

module _ (a : Assembly) where
  same-text : a.text ≡ a.text ++ []
  same-text = sym (append-nil a.text)

  same-told : watched a.told ≡ watched a.told ++ []
  same-told = sym (append-nil (watched a.told))

  Adds-nothing : Adds a a [] false false
  Adds-nothing = record {
    text_grows = same-text;
    told_grows = same-told;
    faults = or-false (is_some a.stream_error);
    ends = or-false (is_some a.final);
  }

  take_event-Adds :
      (e : StreamEvent) → Adds a (take_event a e) (texts_of (e ∷ [])) (is_fault e) (is_terminal e)
  unfolding take_event texts_of watched
  take_event-Adds (text_delta []) = Adds-nothing
  take_event-Adds (text_delta (c ∷ cs)) = record {
    text_grows = ap (λ t. a.text ++ t) (sym (append-nil (c ∷ cs)));
    told_grows = watched-append a.told (told_text (c ∷ cs) ∷ []);
    faults = or-false (is_some a.stream_error);
    ends = or-false (is_some a.final);
  }
  take_event-Adds (call_added id name) =
      elim (exists_row (λ k. k == id) a.announced)
        as (λ known.
          Adds a
            (if known
              then a
              else record a { announced = id ∷ a.announced; told = a.told ++ call_told name })
            [] false false) [
              | true ↦ Adds-nothing
              | false ↦ record {
                text_grows = same-text;
                told_grows =
                    watched-append a.told (call_told name)
                    ∙ ap (λ t. watched a.told ++ t) (unwatched name);
                faults = or-false (is_some a.stream_error);
                ends = or-false (is_some a.final);
              }
            ]
  take_event-Adds (completed f) = record {
    text_grows = same-text;
    told_grows = same-told;
    faults = or-false (is_some a.stream_error);
    ends = or-true (is_some a.final);
  }
  take_event-Adds (incomplete f) = record {
    text_grows = same-text;
    told_grows = same-told;
    faults = or-false (is_some a.stream_error);
    ends = or-true (is_some a.final);
  }
  take_event-Adds (failed f message) = record {
    text_grows = same-text;
    told_grows = same-told;
    faults = or-true (is_some a.stream_error);
    ends = or-true (is_some a.final);
  }
  take_event-Adds (error_frame message) = record {
    text_grows = same-text;
    told_grows = same-told;
    faults = or-true (is_some a.stream_error);
    ends = or-false (is_some a.final);
  }
  take_event-Adds other_event = Adds-nothing

Adds-trans :
    (a b c : Assembly) (t u : Text) (f g m n : Bool)
    → Adds a b t f m
    → Adds b c u g n
    → Adds a c (t ++ u) (f || g) (m || n)
Adds-trans a b c t u f g m n x y = record {
  text_grows = y.text_grows ∙ ap (λ s. s ++ u) x.text_grows ∙ append_assoc a.text t u;
  told_grows = y.told_grows ∙ ap (λ s. s ++ u) x.told_grows ∙ append_assoc (watched a.told) t u;
  faults = y.faults ∙ ap (λ s. s || g) x.faults ∙ or_assoc (is_some a.stream_error) f g;
  ends = y.ends ∙ ap (λ s. s || n) x.ends ∙ or_assoc (is_some a.final) m n;
}

texts_of-cons :
    (e : StreamEvent) (es : List StreamEvent) → texts_of (e ∷ []) ++ texts_of es ≡ texts_of (e ∷ es)
unfolding texts_of
texts_of-cons (text_delta t) es = ap (λ s. s ++ texts_of es) (append-nil t)
texts_of-cons (call_added id name) es = refl
texts_of-cons (completed f) es = refl
texts_of-cons (incomplete f) es = refl
texts_of-cons (failed f m) es = refl
texts_of-cons (error_frame m) es = refl
texts_of-cons other_event es = refl

exists_row-cons :
    (p : StreamEvent → Bool) (e : StreamEvent) (es : List StreamEvent)
    → (p e || exists_row p es) ≡ exists_row p (e ∷ es)
unfolding exists_row
exists_row-cons p e es = ground arith

pub take_events-Adds :
    (a : Assembly) (es : List StreamEvent)
    → Adds a (take_events a es) (texts_of es) (exists_row is_fault es) (exists_row is_terminal es)
unfolding take_events texts_of exists_row
take_events-Adds a [] = Adds-nothing a
take_events-Adds a (e ∷ es) =
    rw (exists_row-cons is_fault e es, exists_row-cons is_terminal e es, texts_of-cons e es) at
      (Adds-trans a (take_event a e) (take_events (take_event a e) es) (texts_of (e ∷ []))
        (texts_of es) (is_fault e) (exists_row is_fault es) (is_terminal e)
        (exists_row is_terminal es) (take_event-Adds a e) (take_events-Adds (take_event a e) es))
