-- ===== src/Prelude/Trim.antt =====
-- What `strings.TrimSpace` keeps.
use Prim.Native.Nat.{ℕ, zero, suc, ◌+◌, ◌/◌, ◌%◌}
use mathlib.Core.Path.{◌≡◌, refl, ap, ◌∙◌}
use mathlib.Core.Logic.{inl, inr}
use mathlib.Core.Bool.{true, false}
use mathlib.Core.List.{[], ◌∷◌, ◌++◌, reverse, reverse-cons, reverse-reverse, reverse-append}
use native.Mathlib.Omega.{arith}
use doota.Prelude.Tests.{Bool-cases, ◌==◌}
use doota.Prelude.Lists.{All, All-reverse, exists_row}
use doota.Prelude.Text.{
  Text, is_space, trim_left, trim_right, trim_space, trim_left_idem, digits_from, decimal,
}

abbrev pub HasNoSpace : Text → Type 0
HasNoSpace t = All (λ c. is_space c ≡ false) t

trim_left-append :
    (t : Text) (c : ℕ) → is_space c ≡ false → trim_left (t ++ c ∷ []) ≡ trim_left t ++ c ∷ []
unfolding trim_left
trim_left-append [] c h = rw h
trim_left-append (d ∷ t) c h = elim (Bool-cases (is_space d)) [
  | inl space ↦ rw space (trim_left-append t c h)
  | inr other ↦ rw other
]

trim_right-cons : (c : ℕ) (t : Text) → is_space c ≡ false → trim_right (c ∷ t) ≡ c ∷ trim_right t
unfolding trim_right
trim_right-cons c t h =
    ap (λ u. reverse (trim_left u)) (reverse-cons c t)
    ∙ ap reverse (trim_left-append (reverse t) c h)
    ∙ reverse-append (trim_left (reverse t)) (c ∷ [])

trim_right_idem : (t : Text) → trim_right (trim_right t) ≡ trim_right t
unfolding trim_right
trim_right_idem t =
    ap (λ u. reverse (trim_left u)) (reverse-reverse (trim_left (reverse t)))
    ∙ ap reverse (trim_left_idem (reverse t))

trim_left-trim_space : (t : Text) → trim_left (trim_space t) ≡ trim_space t
unfolding trim_space trim_left
trim_left-trim_space [] = refl
trim_left-trim_space (c ∷ t) = elim (Bool-cases (is_space c)) [
  | inl space ↦ rw space (trim_left-trim_space t)
  | inr other ↦ rw other (rw (trim_right-cons c t other) (rw other))
]

-- What has been trimmed is not trimmed further.
pub trim_space_idem : (t : Text) → trim_space (trim_space t) ≡ trim_space t
trim_space_idem t =
    unfold trim_space in (ap trim_right (trim_left-trim_space t) ∙ trim_right_idem (trim_left t))

trim_right-HasNoSpace : (t : Text) → HasNoSpace t → trim_right t ≡ t
trim_right-HasNoSpace [] h = unfold trim_right trim_left in refl
trim_right-HasNoSpace (c ∷ t) h = trim_right-cons c t h.0 ∙ ap (◌∷◌ c) (trim_right-HasNoSpace t h.1)

trim_left-HasNoSpace : (t : Text) → HasNoSpace t → trim_left t ≡ t
unfolding trim_left
trim_left-HasNoSpace [] h = refl
trim_left-HasNoSpace (c ∷ t) h = rw h.0

pub trim_space-HasNoSpace : (t : Text) → HasNoSpace t → trim_space t ≡ t
unfolding trim_space
trim_space-HasNoSpace t h = ap trim_right (trim_left-HasNoSpace t h) ∙ trim_right-HasNoSpace t h

digit-is_space : (n : ℕ) → is_space (b'0' + n % 10) ≡ false
unfolding is_space
digit-is_space n = ground arith

digits_from-HasNoSpace : (f n : ℕ) → HasNoSpace (digits_from f n)
unfolding digits_from
digits_from-HasNoSpace zero n = tt
digits_from-HasNoSpace (suc f) n = elim (Bool-cases (n / 10 == 0)) [
  | inl last ↦ rw last (digit-is_space n, tt)
  | inr more ↦ rw more (digit-is_space n, digits_from-HasNoSpace f (n / 10))
]

pub decimal-HasNoSpace : (n : ℕ) → HasNoSpace (decimal n)
unfolding decimal
decimal-HasNoSpace n = All-reverse _ (digits_from (suc n) n) (digits_from-HasNoSpace (suc n) n)

-- For a text that is written out.
pub exists_row-HasNoSpace : (t : Text) → exists_row is_space t ≡ false → HasNoSpace t
unfolding exists_row
exists_row-HasNoSpace [] h = tt
exists_row-HasNoSpace (c ∷ t) h = elim (Bool-cases (is_space c)) [
  | inl space ↦ let wrong : true ≡ false = rw space at h in cc
  | inr other ↦ (other, exists_row-HasNoSpace t (rw other at h))
]
