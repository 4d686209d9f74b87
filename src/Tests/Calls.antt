-- ===== src/Tests/Calls.antt =====
-- A streamed call and a session token on sample data.
use doota.Prelude.{
  ◌+◌, ◌-◌, ◌≡◌, refl, ap, not, ◌||◌, false, List, [], ◌∷◌, ◌++◌, Option, none, some, arith,
  exists_row,
}
use doota.Prelude.Text.{Text, codes, is_empty, trim_space, text_eq, join}
use doota.Model.Response.{Final, function_call, message_item, other_reason}
use doota.Model.Stream.{
  StreamEvent, text_delta, call_added, completed, assembly, take_events, stream,
}
use doota.Model.Assembly.{texts_of, watched, is_fault, is_terminal, is_some}
use doota.Model.Answer.{stream-content, stream-error}
use doota.Web.Session.{issue, user_id, cut, parse_int, is_expired, user_of}
use doota.Web.Tokens.{has_char, user_id-signed, user_id-issue}
use doota.Web.Sse.{write_frame}
use doota.Web.Reader.{Received, nothing_received, browser_lines, read_frame, sent_id}
use doota.Web.Frames.{read_frame-write_frame}
use doota.Tests.Fixtures.{spoken, read_call}

abbrev payload : Final
payload = record {
  model = codes "m";
  status = codes "completed";
  incomplete = other_reason;
  total = 14;
  usage = spoken.usage;
  output = function_call read_call ∷ message_item (codes "Hi there" ∷ []) ∷ [];
}

abbrev events : List StreamEvent
events =
    text_delta (codes "Hi ")
    ∷ call_added 5 (codes "read_file")
    ∷ text_delta (codes "there")
    ∷ completed payload
    ∷ []

stream-content_example :
    ((stream (codes "m") events none).0.content ≡ codes "Hi there")
    × (watched (take_events assembly events).told ≡ codes "Hi there")
unfolding texts_of is_empty trim_space
stream-content_example = stream-content (codes "m") events none refl

stream-error_example :
    is_some (stream (codes "m") events none).1
    ≡ (exists_row is_fault events || not (exists_row is_terminal events))
stream-error_example = stream-error (codes "m") events none

-- A coding without dots and a MAC, both for these tests.
abbrev shifted : Text → Text
shifted [] = []
shifted (c ∷ cs) = (c + 256) ∷ shifted cs

abbrev unshifted : Text → Text
unshifted [] = []
unshifted (c ∷ cs) = (c - 256) ∷ unshifted cs

abbrev decoded : Text → Option Text
decoded t = some (unshifted t)

abbrev mac : Text → Text
mac t = b'#' ∷ t

unshifted-shifted : (t : Text) → unshifted (shifted t) ≡ t
unshifted-shifted [] = refl
unshifted-shifted (c ∷ cs) =
    let same : (c + 256) - 256 ≡ c = omega arith in rw (same, unshifted-shifted cs) refl

shifted-has_char : (t : Text) → has_char b'.' (shifted t) ≡ false
unfolding exists_row
shifted-has_char [] = refl
shifted-has_char (c ∷ cs) = ground (arith, shifted-has_char cs)

user_id-issue_example :
    user_id mac decoded 3600000000000 1700000060000000000
      (issue mac shifted (codes "u1") 1700000000123456789)
    ≡ some (codes "u1")
unfolding is_empty exists_row
user_id-issue_example =
    user_id-issue mac shifted decoded 3600000000000 1700000000123456789 1700000060000000000
      (codes "u1") (λ t. ap some (unshifted-shifted t)) shifted-has_char refl refl (omega arith)
      (omega arith)

accepted :
    user_id mac decoded 60000000000 5000000000 (shifted (codes "u1|3") ++ codes ".#u1|3")
    ≡ some (codes "u1")
unfolding user_id cut user_of parse_int is_expired is_empty text_eq
accepted = refl

user_id-signed_example :
    (encoded payload issued : Text) × (shifted (codes "u1|3") ++ codes ".#u1|3"
      ≡ encoded ++ b'.' ∷ mac payload)
    × (decoded encoded ≡ some payload)
    × (payload ≡ codes "u1" ++ b'|' ∷ issued)
    × (is_empty (codes "u1") ≡ false)
user_id-signed_example =
    user_id-signed mac decoded 60000000000 5000000000 (shifted (codes "u1|3") ++ codes ".#u1|3")
      (codes "u1") accepted

read_frame-write_frame_example :
    (r : Received) × (read_frame nothing_received
        (browser_lines (write_frame 7 (codes "run.state") (codes "a\nb") ++ []))
      ≡ some (r, browser_lines []))
    × (r.last_id ≡ sent_id 7)
    × (r.event ≡ codes "run.state")
    × (join (codes "\n") r.lines ≡ codes "a\nb")
unfolding is_empty exists_row
read_frame-write_frame_example =
    read_frame-write_frame 7 (codes "run.state") (codes "a\nb") [] refl refl refl
