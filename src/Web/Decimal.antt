-- ===== src/Web/Decimal.antt =====
-- The decimal digits of a number, read back.
use doota.Prelude.{
  ℕ, Bool, zero, suc, ◌+◌, ◌-◌, ◌*◌, ◌/◌, ◌%◌, ◌<◌, ◌≡◌, refl, ap, ◌∙◌, true, false, [], ◌∷◌, ◌++◌,
  reverse, reverse-cons, none, some, ◌==◌, ◌&&◌, ltb, leb, arith, exists_row, Bool-cases, inl, inr,
}
use doota.Prelude.Text.{Text, decimal, digits_from, is_empty}
use doota.Web.Session.{digits_value, signed_value, parse_int, int_limit}

digits_value-snoc :
    (acc v d : ℕ) (t : Text)
    → digits_value acc t ≡ some v
    → d < 10
    → digits_value acc (t ++ (b'0' + d) ∷ []) ≡ some (10 * v + d)
unfolding digits_value
digits_value-snoc acc v d [] h k =
    let test : (leb b'0' (b'0' + d) && leb (b'0' + d) b'9') ≡ true = ground arith in
    let same : acc ≡ v = cc in
    let last : 10 * acc + ((b'0' + d) - b'0') ≡ 10 * v + d = omega (arith, same) in
    rw test (ap some last)
digits_value-snoc acc v d (c ∷ cs) h k = elim (Bool-cases (leb b'0' c && leb c b'9')) [
  | inl digit ↦ rw digit (digits_value-snoc (10 * acc + (c - b'0')) v d cs (rw digit at h) k)
  | inr miss ↦ absurd (let wrong : none ≡ some v = rw miss at h in cc)
]

digits_value-digits_from : (f n : ℕ) → n < f → digits_value 0 (reverse (digits_from f n)) ≡ some n
unfolding digits_value digits_from
digits_value-digits_from zero n h = absurd (omega (arith, h))
digits_value-digits_from (suc f) n h = elim (Bool-cases (n / 10 == 0)) [
  | inl last ↦
      let value : 10 * 0 + n % 10 ≡ n = ground arith in
      rw last (digits_value-snoc 0 0 (n % 10) [] refl (omega arith) ∙ ap some value)
  | inr more ↦
      let value : 10 * (n / 10) + n % 10 ≡ n = omega arith in
      let before = digits_value-digits_from f (n / 10) (ground arith) in
      rw (more, reverse-cons (b'0' + n % 10) (digits_from f (n / 10)))
        (digits_value-snoc 0 (n / 10) (n % 10) (reverse (digits_from f (n / 10))) before
            (omega arith)
          ∙ ap some value)
]

snoc-is_empty : (t : Text) (c : ℕ) → is_empty (t ++ c ∷ []) ≡ false
unfolding is_empty
snoc-is_empty [] c = refl
snoc-is_empty (x ∷ xs) c = refl

decimal-is_empty : (n : ℕ) → is_empty (decimal n) ≡ false
unfolding decimal digits_from is_empty
decimal-is_empty n = elim (Bool-cases (n / 10 == 0)) [
  | inl last ↦ rw last refl
  | inr more ↦
      rw (more, reverse-cons (b'0' + n % 10) (digits_from n (n / 10)))
        (snoc-is_empty (reverse (digits_from n (n / 10))) (b'0' + n % 10))
]

parse_int-digits :
    (t : Text) (n : ℕ)
    → is_empty t ≡ false
    → digits_value 0 t ≡ some n
    → n < int_limit
    → parse_int t ≡ some (false, n)
unfolding parse_int signed_value is_empty digits_value
parse_int-digits [] n h k l = absurd cc
parse_int-digits (c ∷ cs) n h k l = elim (Bool-cases (leb b'0' c && leb c b'9')) [
  | inl digit ↦
      let no_minus : (c == b'-') ≡ false = ground arith in
      let no_plus : (c == b'+') ≡ false = ground arith in
      let fits : ltb n int_limit ≡ true = ground arith in
      let rest : digits_value (10 * 0 + (c - b'0')) cs ≡ some n = rw digit at k in
      rw (no_minus, no_plus, digit, rest, fits) refl
  | inr miss ↦ absurd (let wrong : none ≡ some n = rw miss at k in cc)
]

-- What `decimal` writes is read as the number.
pub parse_int-decimal : (n : ℕ) → n < int_limit → parse_int (decimal n) ≡ some (false, n)
unfolding decimal
parse_int-decimal n h =
    parse_int-digits (decimal n) n (decimal-is_empty n)
      (digits_value-digits_from (suc n) n (omega arith)) h

-- A test that no digit passes finds nothing in the digits of a number.
digits_value-exists_row :
    (p : ℕ → Bool) (acc n : ℕ) (t : Text)
    → ((c : ℕ) → (leb b'0' c && leb c b'9') ≡ true → p c ≡ false)
    → digits_value acc t ≡ some n
    → exists_row p t ≡ false
unfolding digits_value exists_row
digits_value-exists_row p acc n [] apart h = refl
digits_value-exists_row p acc n (c ∷ cs) apart h = elim (Bool-cases (leb b'0' c && leb c b'9')) [
  | inl digit ↦
      rw (apart c digit)
        (digits_value-exists_row p (10 * acc + (c - b'0')) n cs apart (rw digit at h))
  | inr miss ↦ absurd (let wrong : none ≡ some n = rw miss at h in cc)
]

pub decimal-exists_row :
    (p : ℕ → Bool) (n : ℕ)
    → ((c : ℕ) → (leb b'0' c && leb c b'9') ≡ true → p c ≡ false)
    → exists_row p (decimal n) ≡ false
unfolding decimal
decimal-exists_row p n apart =
    digits_value-exists_row p 0 n (decimal n) apart
      (digits_value-digits_from (suc n) n (omega arith))
