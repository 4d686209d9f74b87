-- ===== src/Config/Form.antt =====
-- The settings form: what it shows is read back as what is stored.
use doota.Prelude.{
  ℕ, ◌≡◌, ◌≢◌, ◌<◌, refl, sym, ap, ◌∙◌, Bool, true, false, List, [], ◌∷◌, Option, none, some, arith,
  ◌||◌, if◌then◌else◌,
}
use doota.Prelude.Int.{ℤ, pos}
use doota.Prelude.Text.{Text, codes, decimal, trim_space, text_eq}
use doota.Prelude.Trim.{trim_space_idem, trim_space-HasNoSpace, decimal-HasNoSpace}
use doota.Store.Query.{ok}
use doota.Web.Session.{parse_int, signed_value, int_limit}
use doota.Web.Decimal.{parse_int-decimal}
use doota.Config.Fields.{
  FieldKind, kind_text, kind_textarea, kind_int, kind_bool, kind_choice, kind_secret, Value,
  text_value, int_value, bool_value, Field,
}
use doota.Config.Values.{
  AppConfig, text_in, int_in, bool_in, string_of, int_of, bool_of, itoa, display, display_by,
  parse_value, parse_by, parse_number,
}
use doota.Config.Cache.{upsert}
use doota.Config.Seeds.{value_or_default-found, lookup-upsert_self}

-- What `strconv.ParseInt` accepts lies in the range of an int64.
signed_value-lt :
    (negative : Bool) (t : Text) (n : ℕ) → signed_value negative t ≡ some (false, n) → n < int_limit
unfolding signed_value
signed_value-lt true t n h = ground arith
signed_value-lt false t n h = ground arith

parse_int-lt : (t : Text) (n : ℕ) → parse_int t ≡ some (false, n) → n < int_limit
unfolding parse_int
parse_int-lt [] n h = cc
parse_int-lt (c ∷ cs) n h =
    ground (
      arith,
      signed_value-lt true cs n,
      signed_value-lt false cs n,
      signed_value-lt false (c ∷ cs) n,
    )

-- The value that is stored for a field's key, and what the form then shows.
abbrev stored : Field → Value → AppConfig → AppConfig
stored f v c = upsert f.key v c

parse_number-value :
    (label : Text) (max : ℕ) (r : Option (Bool × ℕ)) (v : Value)
    → parse_number label max r ≡ ok v
    → (n : ℕ) × (r ≡ some (false, n)) × (v ≡ int_value (pos n))
unfolding parse_number
parse_number-value label max none v h = cc
parse_number-value label max (some (true, n)) v h = absurd (ground arith)
parse_number-value label max (some (false, n)) v h = (n, refl, ground arith)

-- A number that the form accepted is shown so that it is accepted again.
parse_value-number :
    (label : Text) (max : ℕ) (raw : Text) (v : Value)
    → parse_number label max (parse_int raw) ≡ ok v
    → (n : ℕ) × (v ≡ int_value (pos n))
      × (parse_number label max (parse_int (trim_space (decimal n))) ≡ ok v)
parse_value-number label max raw v h =
    let (n, read, same) = parse_number-value label max (parse_int raw) v h in
    (
      n,
      same,
      ap (λ t. parse_number label max (parse_int t))
            (trim_space-HasNoSpace (decimal n) (decimal-HasNoSpace n))
          ∙ ap (parse_number label max) (parse_int-decimal n (parse_int-lt raw n read) ∙ sym read)
          ∙ h,
    )

string_of-stored :
    (fields : List Field) (f : Field) (t : Text) (c : AppConfig)
    → string_of fields f.key (stored f (text_value t) c) ≡ t
unfolding string_of
string_of-stored fields f t c =
    value_or_default-found text_in [] t fields f.key _ (text_value t)
      (lookup-upsert_self f.key (text_value t) c) refl

int_of-stored :
    (fields : List Field) (f : Field) (z : ℤ) (c : AppConfig)
    → int_of fields f.key (stored f (int_value z) c) ≡ z
unfolding int_of
int_of-stored fields f z c =
    value_or_default-found int_in (pos 0) z fields f.key _ (int_value z)
      (lookup-upsert_self f.key (int_value z) c) refl

bool_of-stored :
    (fields : List Field) (f : Field) (b : Bool) (c : AppConfig)
    → bool_of fields f.key (stored f (bool_value b) c) ≡ b
unfolding bool_of
bool_of-stored fields f b c =
    value_or_default-found bool_in false b fields f.key _ (bool_value b)
      (lookup-upsert_self f.key (bool_value b) c) refl

trim_space-stored :
    (fields : List Field) (f : Field) (raw : Text) (c : AppConfig) (v : Value)
    → v ≡ text_value (trim_space raw)
    → trim_space (string_of fields f.key (stored f v c)) ≡ trim_space raw
trim_space-stored fields f raw c v e =
    rw e (ap trim_space (string_of-stored fields f (trim_space raw) c) ∙ trim_space_idem raw)

bool_text : (b : Bool) → Text
bool_text b = if b then codes "true" else codes "false"

is_true : (t : Text) → Bool
unfolding text_eq
is_true t = text_eq t (codes "true") || text_eq t (codes "on") || text_eq t (codes "1")

is_true-bool_text : (b : Bool) → is_true (trim_space (bool_text b)) ≡ b
unfolding is_true bool_text trim_space
is_true-bool_text true = refl
is_true-bool_text false = refl

parse_by-bool :
    (fields : List Field) (f : Field) (raw : Text) (c : AppConfig) (v : Value)
    → parse_by kind_bool f (trim_space raw) ≡ ok v
    → parse_by kind_bool f (trim_space (display_by kind_bool fields f.key (stored f v c))) ≡ ok v
unfolding parse_by display_by is_true bool_text
parse_by-bool fields f raw c v h =
    let b = is_true (trim_space raw) in
    let same : v ≡ bool_value b = cc in
    rw same (
      ap (λ x. ok (bool_value (is_true (trim_space (bool_text x))))) (bool_of-stored fields f b c)
      ∙ ap (λ x. ok (bool_value x)) (is_true-bool_text b))

parse_by-display_by :
    (k : FieldKind) (fields : List Field) (f : Field) (raw : Text) (c : AppConfig) (v : Value)
    → k ≢ kind_secret
    → parse_by k f (trim_space raw) ≡ ok v
    → parse_by k f (trim_space (display_by k fields f.key (stored f v c))) ≡ ok v
unfolding parse_by display_by
parse_by-display_by kind_secret fields f raw c v n h = absurd (n refl)
parse_by-display_by kind_int fields f raw c v n h =
    let (m, same, again) = parse_value-number f.label f.max (trim_space raw) v h in
    let shown : int_of fields f.key (stored f v c) ≡ pos m =
      rw same (int_of-stored fields f (pos m) c) in
    ap (λ z. parse_number f.label f.max (parse_int (trim_space (itoa z)))) shown ∙ again
parse_by-display_by kind_bool fields f raw c v n h = parse_by-bool fields f raw c v h
parse_by-display_by kind_text fields f raw c v n h =
    ap (parse_by kind_text f) (trim_space-stored fields f raw c v (cc)) ∙ h
parse_by-display_by kind_textarea fields f raw c v n h =
    ap (parse_by kind_textarea f) (trim_space-stored fields f raw c v (cc)) ∙ h
parse_by-display_by kind_choice fields f raw c v n h =
    ap (parse_by kind_choice f) (trim_space-stored fields f raw c v (ground arith)) ∙ h

-- What the form accepts for a setting that is not a secret is shown, once stored, as a text that
-- the form accepts again as the same value, so saving the form untouched changes nothing.
pub parse_value-display :
    (fields : List Field) (f : Field) (raw : Text) (c : AppConfig) (v : Value)
    → f.kind ≢ kind_secret
    → parse_value f raw ≡ ok v
    → parse_value f (display fields f (upsert f.key v c)) ≡ ok v
unfolding parse_value display
parse_value-display fields f raw c v n h = parse_by-display_by f.kind fields f raw c v n h
