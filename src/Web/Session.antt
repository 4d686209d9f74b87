-- ===== src/Web/Session.antt =====
-- internal/web/session/session.go: the value of the session cookie. The MAC and the base64 coding
-- are parameters; times are nanoseconds since the epoch.
use doota.Prelude.{
  ℕ, ◌+◌, ◌-◌, ◌*◌, ◌/◌, Bool, true, false, [], ◌∷◌, ◌++◌, Option, none, some, ◌==◌, ◌&&◌, ltb, leb,
  if◌then◌else◌,
}
use doota.Prelude.Text.{Text, codes, decimal, is_empty, text_eq}

-- `strings.Cut` at one character: what stands before its first occurrence and after it.
unfoldable pub cut : ℕ → Text → Option (Text × Text)
cut sep [] = none
cut sep (c ∷ cs) =
    let rest = cut sep cs in
    if c == sep
    then some ([], cs)
    else elim rest [ none ↦ none | some (before, after) ↦ some (c ∷ before, after) ]

-- The number that decimal digits write, from the first digit on.
unfoldable pub digits_value : ℕ → Text → Option ℕ
digits_value acc [] = some acc
digits_value acc (c ∷ cs) =
    let rest = digits_value (10 * acc + (c - b'0')) cs in
    if leb b'0' c && leb c b'9' then rest else none

abbrev pub int_limit : ℕ
int_limit = 9223372036854775808

unfoldable pub signed_value : Bool → Text → Option (Bool × ℕ)
unfolding digits_value is_empty
signed_value negative digits = if is_empty digits then none else elim (digits_value 0 digits) [
  | none ↦ none
  | some n ↦
      if (if negative then leb n int_limit else ltb n int_limit) then some (negative, n) else none
]

-- `strconv.ParseInt(s, 10, 64)`: a sign and a size.
unfoldable pub parse_int : Text → Option (Bool × ℕ)
unfolding signed_value
parse_int [] = none
parse_int (c ∷ cs) =
    if c == b'-'
    then signed_value true cs
    else if c == b'+'
    then signed_value false cs
    else signed_value false (c ∷ cs)

abbrev pub second : ℕ
second = 1000000000

-- `time.Since(time.Unix(issued, 0)) > ttl`; a time that is still to come is not past it.
unfoldable pub is_expired : ℕ → ℕ → Bool × ℕ → Bool
is_expired ttl now (true, n) = ltb ttl (now + second * n)
is_expired ttl now (false, n) = ltb ttl (now - second * n)

-- `Issue`: the token.
unfoldable pub issue : (Text → Text) → (Text → Text) → Text → ℕ → Text
issue sign encode user now =
    let payload = user ++ codes "|" ++ decimal (now / second) in
    encode payload ++ codes "." ++ sign payload

-- `UserID` on the payload.
unfoldable pub user_of : ℕ → ℕ → Text → Option Text
unfolding cut parse_int is_expired is_empty
user_of ttl now payload = elim (cut b'|' payload) [
  | none ↦ none
  | some (user, issued) ↦ if is_empty user then none else elim (parse_int issued) [
    | none ↦ none
    | some time ↦ if is_expired ttl now time then none else some user
  ]
]

-- `UserID`, for the value of the cookie.
unfoldable pub user_id : (Text → Text) → (Text → Option Text) → ℕ → ℕ → Text → Option Text
unfolding cut user_of text_eq
user_id sign decode ttl now token = elim (cut b'.' token) [
  | none ↦ none
  | some (encoded, mac) ↦ elim (decode encoded) [
    | none ↦ none
    | some payload ↦ if text_eq mac (sign payload) then user_of ttl now payload else none
  ]
]
