-- ===== src/Prelude/Text.antt =====
-- Text as a list of code points, with what the program uses of Go's package strings.
use Prim.Native.Char.{code}
use Prim.Native.String.{String}
use Prim.Native.Nat.{ℕ, zero, suc, ◌+◌, ◌/◌, ◌%◌}
use mathlib.Core.Path.{◌≡◌, refl}
use mathlib.Core.Option.{Option, none, some}
use mathlib.Core.Bool.{Bool, true, false, ◌&&◌, ◌||◌}
use mathlib.Core.List.{List, [], ◌∷◌, ◌++◌, reverse}
use native.Mathlib.Omega.{arith}
use doota.Prelude.Tests.{leb, ◌==◌, if◌then◌else◌}

abbrev pub Text : Type 0
Text = List ℕ

abbrev pub codes : String → Text
codes String.[] = []
codes (String.◌∷◌ c s) = code c ∷ codes s

-- Unicode's White_Space, which `strings.TrimSpace` trims.
unfoldable pub is_space : ℕ → Bool
is_space c =
    (leb 0x09 c && leb c 0x0d)
    || c == 0x20
    || c == 0x85
    || c == 0xa0
    || c == 0x1680
    || (leb 0x2000 c && leb c 0x200a)
    || c == 0x2028
    || c == 0x2029
    || c == 0x202f
    || c == 0x205f
    || c == 0x3000

unfoldable pub trim_left : Text → Text
trim_left [] = []
trim_left (c ∷ cs) = let rest = trim_left cs in if is_space c then rest else c ∷ cs

unfoldable pub trim_right : Text → Text
unfolding trim_left
trim_right t = reverse (trim_left (reverse t))

unfoldable pub trim_space : Text → Text
unfolding trim_left trim_right is_space
trim_space t = trim_right (trim_left t)

unfoldable pub drop_left : (ℕ → Bool) → Text → Text
drop_left p [] = []
drop_left p (c ∷ cs) = let rest = drop_left p cs in if p c then rest else c ∷ cs

-- `strings.TrimRight` by a test on the code points.
unfoldable pub drop_right : (ℕ → Bool) → Text → Text
unfolding drop_left
drop_right p t = reverse (drop_left p (reverse t))

-- The decimal digits of a number, least first; a number has no more digits than its own value
-- and one.
unfoldable pub digits_from : ℕ → ℕ → Text
digits_from zero n = []
digits_from (suc f) n =
    let rest = digits_from f (n / 10) in
    if n / 10 == 0 then (b'0' + n % 10) ∷ [] else (b'0' + n % 10) ∷ rest

unfoldable pub decimal : ℕ → Text
unfolding digits_from
decimal n = reverse (digits_from (suc n) n)

unfoldable pub is_empty {ℓ} : {A : Type ℓ} → List A → Bool
is_empty [] = true
is_empty (_ ∷ _) = false

unfoldable pub text_eq : Text → Text → Bool
text_eq [] [] = true
text_eq [] (_ ∷ _) = false
text_eq (_ ∷ _) [] = false
text_eq (a ∷ s) (b ∷ t) = a == b && text_eq s t

unfoldable pub has_prefix : Text → Text → Bool
has_prefix s [] = true
has_prefix [] (_ ∷ _) = false
has_prefix (a ∷ s) (b ∷ t) = a == b && has_prefix s t

unfoldable pub split_step : Bool → ℕ → List Text → List Text
split_step true c rest = [] ∷ rest
split_step false c [] = (c ∷ []) ∷ []
split_step false c (l ∷ ls) = (c ∷ l) ∷ ls

-- `strings.Split` at one code point: never empty.
unfoldable pub split_at_char : ℕ → Text → List Text
unfolding split_step
split_at_char sep [] = [] ∷ []
split_at_char sep (c ∷ cs) = split_step (c == sep) c (split_at_char sep cs)

-- The part before the first separator; `none` where there is none.
unfoldable pub cut_before : ℕ → Text → Option Text
cut_before sep [] = none
cut_before sep (c ∷ cs) =
    let rest = cut_before sep cs in
    if c == sep then some [] else elim rest [ none ↦ none | some t ↦ some (c ∷ t) ]

-- The part from the last separator on, separator included; `none` where there is none.
unfoldable pub from_last : ℕ → Text → Option Text
from_last sep [] = none
from_last sep (c ∷ cs) = elim (from_last sep cs) [
  | some t ↦ some t
  | none ↦ if c == sep then some (c ∷ cs) else none
]

unfoldable pub to_lower : ℕ → ℕ
to_lower c = if leb b'A' c && leb c b'Z' then c + 32 else c

-- `strings.Contains`, the part first.
unfoldable pub contains_part : Text → Text → Bool
unfolding has_prefix is_empty
contains_part part [] = is_empty part
contains_part part (c ∷ cs) =
    let rest = contains_part part cs in if has_prefix (c ∷ cs) part then true else rest

-- `strings.Join`.
unfoldable pub join : Text → List Text → Text
join sep [] = []
join sep (t ∷ []) = t
join sep (t ∷ u ∷ us) = t ++ sep ++ join sep (u ∷ us)

unfoldable pub contains_text : List Text → Text → Bool
unfolding text_eq
contains_text [] t = false
contains_text (u ∷ us) t = let rest = contains_text us t in if text_eq u t then true else rest

pub text_eq_sound : (s t : Text) → text_eq s t ≡ true → s ≡ t
unfolding text_eq
text_eq_sound [] [] h = refl
text_eq_sound [] (_ ∷ _) h = ground arith
text_eq_sound (_ ∷ _) [] h = ground arith
text_eq_sound (a ∷ s) (b ∷ t) h = ground (arith, text_eq_sound s t)

pub text_eq_refl : (s : Text) → text_eq s s ≡ true
unfolding text_eq
text_eq_refl [] = refl
text_eq_refl (a ∷ s) = ground (arith, text_eq_refl s)

pub trim_left_idem : (t : Text) → trim_left (trim_left t) ≡ trim_left t
unfolding trim_left
trim_left_idem [] = refl
trim_left_idem (c ∷ cs) = ground (arith, trim_left_idem cs)
