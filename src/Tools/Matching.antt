-- ===== src/Tools/Matching.antt =====
-- The first match of a part in a text, and its replacement.
use doota.Prelude.{
  ℕ, zero, suc, ◌+◌, ◌-◌, ◌<◌, ◌≡◌, refl, ap, ◌∙◌, true, false, [], ◌∷◌, ◌++◌, length, drop, arith,
  Bool-cases, inl, inr,
}
use doota.Prelude.Text.{Text, has_prefix, is_empty}
use doota.Tools.Edit.{count_from, count_of, replace_from, replace}

has_prefix-append : (s part : Text) → has_prefix s part ≡ true → s ≡ part ++ drop (length part) s
unfolding has_prefix
has_prefix-append s [] h = refl
has_prefix-append [] (b ∷ part) h = absurd cc
has_prefix-append (a ∷ s) (b ∷ part) h =
    let same : a ≡ b = ground arith in
    rw same (ap (λ t. b ∷ t) (has_prefix-append s part (ground arith)))

-- Without replacements left, what a match covers is dropped and the rest stays.
replace_from-zero :
    (part new : Text) (skip : ℕ) (s : Text) → replace_from part new 0 skip s ≡ drop skip s
unfolding replace_from
replace_from-zero part new zero [] = refl
replace_from-zero part new (suc skip) [] = refl
replace_from-zero part new zero (c ∷ cs) = ap (λ t. c ∷ t) (replace_from-zero part new 0 cs)
replace_from-zero part new (suc skip) (c ∷ cs) = replace_from-zero part new skip cs

has_prefix-longer : (s t part : Text) → has_prefix s part ≡ true → has_prefix (s ++ t) part ≡ true
unfolding has_prefix
has_prefix-longer s t [] h = ground arith
has_prefix-longer [] t (b ∷ part) h = absurd cc
has_prefix-longer (a ∷ s) t (b ∷ part) h = ground (arith, has_prefix-longer s t part)

-- A text with a match, and the text with its first match replaced.
pub record FirstMatch (s part new : Text) : Type 0 where
  pub before : Text
  pub after : Text
  pub found : s ≡ before ++ part ++ after
  pub replaced : replace s part new 1 ≡ before ++ new ++ after
  pub is_first : count_of before part ≡ 0
  pub counted : count_of s part ≡ suc (count_of after part)

-- What a match covers is not counted again.
count_from-drop :
    (part : Text) (skip : ℕ) (s : Text) → count_from part skip s ≡ count_of (drop skip s) part
unfolding count_of count_from
count_from-drop part zero s = refl
count_from-drop part (suc skip) [] = refl
count_from-drop part (suc skip) (c ∷ cs) = count_from-drop part skip cs

match-here :
    (b : ℕ) (bs new : Text) (c : ℕ) (cs : Text)
    → has_prefix (c ∷ cs) (b ∷ bs) ≡ true
    → FirstMatch (c ∷ cs) (b ∷ bs) new
unfolding count_of replace count_from replace_from
match-here b bs new c cs hit =
    let size : suc (length bs) - 1 ≡ length bs = omega arith in
    record {
      before = [];
      after = drop (length bs) cs;
      found = has_prefix-append (c ∷ cs) (b ∷ bs) hit;
      replaced = rw hit (
          ap (λ t. new ++ t)
            (replace_from-zero (b ∷ bs) new (suc (length bs) - 1) cs ∙ ap (λ k. drop k cs) size));
      is_first = refl;
      counted = rw hit (
          omega (
            arith,
            count_from-drop (b ∷ bs) (suc (length bs) - 1) cs
                ∙ ap (λ k. count_of (drop k cs) (b ∷ bs)) size,
          ));
    }

match-later :
    (part new : Text) (c : ℕ) (cs : Text)
    → has_prefix (c ∷ cs) part ≡ false
    → FirstMatch cs part new
    → FirstMatch (c ∷ cs) part new
unfolding count_of replace count_from replace_from
match-later part new c cs miss m = record {
  before = c ∷ m.before;
  after = m.after;
  found = ap (λ t. c ∷ t) m.found;
  replaced = rw miss (ap (λ t. c ∷ t) m.replaced);
  counted = rw miss (omega (arith, m.counted));
  is_first = elim (Bool-cases (has_prefix (c ∷ m.before) part)) [
    | inl earlier ↦
        let also =
          has_prefix-longer (c ∷ m.before ++ part) m.after part
            (has_prefix-longer (c ∷ m.before) part part earlier) in
        let wrong : has_prefix (c ∷ cs) part ≡ true = rw m.found also in absurd cc
    | inr fresh ↦ rw fresh (omega (arith, m.is_first))
  ];
}

pub replace-first :
    (part new s : Text) → is_empty part ≡ false → 0 < count_of s part → FirstMatch s part new
unfolding count_of count_from is_empty
replace-first [] new s h some_match = absurd cc
replace-first part new [] h some_match = absurd (omega (arith, some_match))
replace-first (b ∷ bs) new (c ∷ cs) h some_match =
    elim (Bool-cases (has_prefix (c ∷ cs) (b ∷ bs))) [
      | inl hit ↦ match-here b bs new c cs hit
      | inr miss ↦ match-later (b ∷ bs) new c cs miss (
          replace-first (b ∷ bs) new cs h (
            let left : 0 < 0 + count_from (b ∷ bs) 0 cs = rw miss at some_match in
            omega (arith, left)))
    ]
