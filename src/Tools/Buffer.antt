-- ===== src/Tools/Buffer.antt =====
-- What a bounded buffer keeps of a stream.
use doota.Prelude.{
  ℕ, ◌+◌, ◌*◌, ◌/◌, ◌≤◌, ◌<◌, ◌≡◌, refl, sym, ap, ◌∙◌, Bool, true, false, List, [], ◌∷◌, ◌++◌,
  arith, ltb, if◌then◌else◌, length, take, length-append, take_append_take, take-append,
  length-take, append-nil, append_assoc,
}
use doota.Prelude.Text.{Text}
use doota.Tools.Truncate.{
  take_last, clip_middle, BoundedBuffer, new_bounded_buffer, compact, write, contents,
}
use doota.Tools.Ends.{take_last-longer, take_last-shorter, length-take_last, take_last-append}
use doota.Tools.Clipping.{clip_middle-whole}

-- What both ends of a text are.
pub record SameEnds (half : ℕ) (xs ys : Text) : Type 0 where
  pub start : take half xs ≡ take half ys
  pub end : take_last half xs ≡ take_last half ys

SameEnds-append :
    (half : ℕ) (xs ys p : Text) → SameEnds half xs ys → SameEnds half (xs ++ p) (ys ++ p)
SameEnds-append half xs ys p e = record {
  start =
      sym (take_append_take half xs p)
      ∙ ap (λ t. take half (t ++ p)) e.start
      ∙ take_append_take half ys p;
  end =
      sym (take_last-append half xs p)
      ∙ ap (λ t. take_last half (t ++ p)) e.end
      ∙ take_last-append half ys p;
}

SameEnds-compact : (half : ℕ) (t : Text) → 2 * half ≤ length t → SameEnds half (compact half t) t
unfolding compact
SameEnds-compact half t h = record {
  start =
      take-append half (take half t) (take_last half t) (omega (arith, length-take half t))
      ∙ (ap (take half) (sym (append-nil (take half t)))
          ∙ take_append_take half t []
          ∙ ap (take half) (append-nil t));
  end =
      take_last-longer half (take half t) (take_last half t)
        (omega (arith, length-take_last half t (omega (arith, h))))
      ∙ take_last-shorter half (take_last half t)
          (omega (arith, length-take_last half t (omega (arith, h))));
}

length-compact : (half : ℕ) (t : Text) → 2 * half ≤ length t → length (compact half t) ≡ 2 * half
unfolding compact
length-compact half t h = omega (
  arith,
  length-append (take half t) (take_last half t),
  length-take half t,
  length-take_last half t (omega (arith, h)),
)

unfoldable pub write_all : BoundedBuffer → List Text → BoundedBuffer
write_all b [] = b
write_all b (p ∷ ps) = write_all (write b p) ps

-- The stream that was written.
unfoldable pub stream : List Text → Text
stream [] = []
stream (p ∷ ps) = p ++ stream ps

-- A buffer after some writes, with what they wrote together.
pub record Holds (b : BoundedBuffer) (all : Text) : Type 0 where
  pub ends : SameEnds (b.limit / 2) b.buf all
  pub fits : length b.buf ≤ 2 * b.limit
  pub counted : b.total ≡ length all

write-Holds : (b : BoundedBuffer) (all p : Text) → Holds b all → Holds (write b p) (all ++ p)
unfolding write
write-Holds b all p h = by_size (ltb (2 * b.limit) (length (b.buf ++ p))) refl
  where
    half : ℕ
    half = b.limit / 2

    grown : SameEnds half (b.buf ++ p) (all ++ p)
    grown = SameEnds-append half b.buf all p h.ends

    counted : b.total + length p ≡ length (all ++ p)
    counted = omega (arith, h.counted, length-append all p)

    by_size :
        (over : Bool)
        → ltb (2 * b.limit) (length (b.buf ++ p)) ≡ over
        → Holds
            (record b {
              total = b.total + length p;
              buf = if over then compact half (b.buf ++ p) else b.buf ++ p;
            })
            (all ++ p)
    by_size true over =
        let long : 2 * half ≤ length (b.buf ++ p) = ground arith in
        let kept = SameEnds-compact half (b.buf ++ p) long in
        record {
          ends = record { start = kept.start ∙ grown.start; end = kept.end ∙ grown.end };
          fits = omega (arith, length-compact half (b.buf ++ p) long);
          counted = counted;
        }
    by_size false room = record { ends = grown; fits = ground arith; counted = counted }

write_all-Holds :
    (b : BoundedBuffer) (all : Text) (ps : List Text)
    → Holds b all
    → Holds (write_all b ps) (all ++ stream ps)
unfolding write_all stream
write_all-Holds b all [] h = rw (append-nil all) h
write_all-Holds b all (p ∷ ps) h =
    rw (append_assoc all p (stream ps)) at
      (write_all-Holds (write b p) (all ++ p) ps (write-Holds b all p h))

write_all-limit : (b : BoundedBuffer) (ps : List Text) → (write_all b ps).limit ≡ b.limit
unfolding write_all write
write_all-limit b [] = refl
write_all-limit b (p ∷ ps) = write_all-limit (write b p) ps

-- However the output of a command is split into writes, a buffer of `limit` bytes holds the first
-- and the last half of the limit of all that was written, never more than twice the limit, and the
-- number of bytes that were written.
pub write_all-ends :
    (limit : ℕ) (ps : List Text)
    → let b = write_all (new_bounded_buffer limit) ps in
      (take (limit / 2) b.buf ≡ take (limit / 2) (stream ps))
      × (take_last (limit / 2) b.buf ≡ take_last (limit / 2) (stream ps))
      × (length b.buf ≤ 2 * limit)
      × (b.total ≡ length (stream ps))
unfolding new_bounded_buffer
write_all-ends limit ps =
    let h =
      write_all-Holds (new_bounded_buffer limit) [] ps (record {
        ends = record { start = refl; end = refl };
        fits = omega arith;
        counted = refl;
      }) in
    let same = write_all-limit (new_bounded_buffer limit) ps in
    (rw same at h.ends.start, rw same at h.ends.end, omega (arith, h.fits, same), h.counted)

write-compact :
    (b : BoundedBuffer) (p : Text)
    → 2 * b.limit < length (b.buf ++ p)
    → (write b p).buf ≡ compact (b.limit / 2) (b.buf ++ p)
unfolding write
write-compact b p long =
    let over : ltb (2 * b.limit) (length (b.buf ++ p)) ≡ true = ground arith in
    rw (over, write) refl

-- A write that makes the buffer drop its middle leaves a text without any notice of it: what is
-- shown is the first and the last half of the limit, one right after the other.
pub contents-compact :
    (b : BoundedBuffer) (p : Text)
    → 2 * b.limit < length (b.buf ++ p)
    → contents (write b p) ≡ take (b.limit / 2) (b.buf ++ p) ++ take_last (b.limit / 2) (b.buf ++ p)
unfolding contents compact write
contents-compact b p long =
    let size = length-compact (b.limit / 2) (b.buf ++ p) (omega (arith, long)) in
    ap (λ t. clip_middle t b.limit) (write-compact b p long)
    ∙ clip_middle-whole (compact (b.limit / 2) (b.buf ++ p)) b.limit (omega (arith, size))
