-- ===== src/Config/Values.antt =====
-- internal/store/appconfig.go: reading a snapshot of the settings, and the form's input. A snapshot
-- is the list of its rows, with one row for a key.
use Prim.Native.String.{String}
use text.Mathlib.Text.{◌==◌ as str_eq}
use doota.Prelude.{
  ℕ, ◌+◌, Bool, false, not, ◌&&◌, ◌||◌, List, [], ◌∷◌, ◌++◌, Option, none, some, ltb, ◌==◌,
  if◌then◌else◌,
}
use doota.Prelude.Int.{ℤ, pos, negsuc}
use doota.Prelude.Text.{Text, codes, decimal, trim_space, is_empty, text_eq, contains_text, join}
use doota.Store.Query.{Result, ok, err, refused}
use doota.Web.Session.{parse_int}
use doota.Config.Fields.{
  FieldKind, kind_text, kind_textarea, kind_int, kind_bool, kind_choice, kind_secret, Value,
  null_value, text_value, int_value, bool_value, Field, Credential, required_credentials,
  field_by_key,
}

pub record ConfigRow : Type 0 where
  pub key : String
  pub value : Value

abbrev pub AppConfig : Type 0
AppConfig = List ConfigRow

unfoldable pub lookup : String → AppConfig → Option Value
lookup k [] = none
lookup k (r ∷ rs) = let rest = lookup k rs in if str_eq r.key k then some r.value else rest

-- `json.Unmarshal` into a string, an int and a bool: a null leaves the zero value.
abbrev pub text_in : Value → Option Text
text_in null_value = some []
text_in (text_value t) = some t
text_in _ = none

abbrev pub int_in : Value → Option ℤ
int_in null_value = some (pos 0)
int_in (int_value z) = some z
int_in _ = none

abbrev pub bool_in : Value → Option Bool
bool_in null_value = some false
bool_in (bool_value b) = some b
bool_in _ = none

-- The type assertions on a field's default, none of which is nil.
abbrev or_zero {ℓ} : {A : Type ℓ} → Option A → A → A
or_zero none zero = zero
or_zero (some a) zero = a

abbrev decoded {ℓ} : {A : Type ℓ} → (Value → Option A) → Option Value → Option A
decoded read none = none
decoded read (some v) = read v

-- The value of a key, or the default of its field, or the zero value.
unfoldable pub value_or_default {ℓ} :
    {A : Type ℓ} → (Value → Option A) → A → List Field → String → AppConfig → A
value_or_default read zero fields key c = elim (decoded read (lookup key c)) [
  | some a ↦ a
  | none ↦ elim (field_by_key fields key) [ some f ↦ or_zero (read f.default) zero | none ↦ zero ]
]

-- `AppConfig.String`, `Text` and `Secret`, `IsSet`, `Int`, `Bool`.
unfoldable pub string_of : List Field → String → AppConfig → Text
unfolding value_or_default
string_of fields key c = value_or_default text_in [] fields key c

unfoldable pub text_of : List Field → String → AppConfig → Text
text_of fields key c = trim_space (string_of fields key c)

unfoldable pub is_set : List Field → String → AppConfig → Bool
unfolding is_empty
is_set fields key c = not (is_empty (text_of fields key c))

unfoldable pub int_of : List Field → String → AppConfig → ℤ
unfolding value_or_default
int_of fields key c = value_or_default int_in (pos 0) fields key c

unfoldable pub bool_of : List Field → String → AppConfig → Bool
unfolding value_or_default
bool_of fields key c = value_or_default bool_in false fields key c

unfoldable pub missing_from : List Field → AppConfig → List Credential → List Text
missing_from fields c [] = []
missing_from fields c (r ∷ rs) =
    let rest = missing_from fields c rs in if is_set fields r.key c then rest else r.label ∷ rest

-- `AppConfig.MissingCredentials`.
unfoldable pub missing_credentials : List Field → AppConfig → List Text
unfolding missing_from
missing_credentials fields c = missing_from fields c required_credentials

-- `strconv.Itoa`.
unfoldable pub itoa : ℤ → Text
itoa (pos n) = decimal n
itoa (negsuc n) = codes "-" ++ decimal (n + 1)

unfoldable pub display_by : FieldKind → List Field → String → AppConfig → Text
unfolding itoa
display_by kind_secret fields key c = []
display_by kind_int fields key c = itoa (int_of fields key c)
display_by kind_bool fields key c = if bool_of fields key c then codes "true" else codes "false"
display_by kind_text fields key c = string_of fields key c
display_by kind_textarea fields key c = string_of fields key c
display_by kind_choice fields key c = string_of fields key c

-- `AppConfig.Display`.
unfoldable pub display : List Field → Field → AppConfig → Text
unfolding display_by
display fields f c = display_by f.kind fields f.key c

-- A number of the form, once `strconv.Atoi` has read its sign and size.
unfoldable pub parse_number : Text → ℕ → Option (Bool × ℕ) → Result Value
parse_number label max none = err (refused (label ++ codes " must be a whole number"))
parse_number label max (some (negative, n)) =
    if negative || n == 0
    then err (refused (label ++ codes " must be greater than zero"))
    else if ltb 0 max && ltb max n
    then err (refused (label ++ codes " cannot be more than " ++ decimal max))
    else ok (int_value (pos n))

unfoldable pub parse_by : FieldKind → Field → Text → Result Value
unfolding parse_int parse_number text_eq contains_text
parse_by kind_int f raw = parse_number f.label f.max (parse_int raw)
parse_by kind_bool f raw =
    ok (
      bool_value
        (text_eq raw (codes "true") || text_eq raw (codes "on") || text_eq raw (codes "1")))
parse_by kind_choice f raw =
    if contains_text f.choices raw
    then ok (text_value raw)
    else err (refused (f.label ++ codes " must be one of: " ++ join (codes ", ") f.choices))
parse_by kind_text f raw = ok (text_value raw)
parse_by kind_textarea f raw = ok (text_value raw)
parse_by kind_secret f raw = ok (text_value raw)

-- `ParseValue`.
unfoldable pub parse_value : Field → Text → Result Value
unfolding parse_by
parse_value f raw = parse_by f.kind f (trim_space raw)
