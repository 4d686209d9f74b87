-- ===== src/Tools/Ends.antt =====
-- The last bytes of a text.
use doota.Prelude.{
  ℕ, ◌-◌, ◌*◌, ◌≤◌, ◌≡◌, sym, ap, ◌∙◌, Bool-cases, inl, inr, ◌++◌, arith, leb, length, take, drop,
  length-append, take-append, drop-append, length-take, length-drop, append_assoc, take-append-drop,
}
use doota.Prelude.Text.{Text}
use doota.Tools.Truncate.{take_last}

-- The last bytes of a text of at least that many do not depend on what comes before it.
pub take_last-longer :
    (n : ℕ) (xs ys : Text) → n ≤ length ys → take_last n (xs ++ ys) ≡ take_last n ys
unfolding take_last
take_last-longer n xs ys h =
    drop-append (length ys - n) _ xs ys (omega (arith, length-append xs ys))

pub length-take_last : (n : ℕ) (xs : Text) → n ≤ length xs → length (take_last n xs) ≡ n
unfolding take_last
length-take_last n xs h = omega (arith, length-drop (length xs - n) xs)

pub take_last-shorter : (n : ℕ) (xs : Text) → length xs ≤ n → take_last n xs ≡ xs
unfolding take_last
take_last-shorter n xs h =
    let none_dropped : length xs - n ≡ 0 = omega arith in ap (λ k. drop k xs) none_dropped

-- The last bytes of a stream are among the last bytes of what came before and what is added.
pub take_last-append :
    (n : ℕ) (xs ys : Text) → take_last n (take_last n xs ++ ys) ≡ take_last n (xs ++ ys)
unfolding take_last
take_last-append n xs ys = elim (Bool-cases (leb (length xs) n)) [
  | inl short ↦ ap (λ t. take_last n (t ++ ys)) (take_last-shorter n xs (ground arith))
  | inr long ↦
      let start = take (length xs - n) xs in
      let end = take_last n xs in
      let fits : n ≤ length end = omega (arith, length-take_last n xs (ground arith)) in
      sym (
        ap (take_last n) (
          sym (ap (λ t. t ++ ys) (take-append-drop (length xs - n) xs)) ∙ append_assoc start end ys)
        ∙ take_last-longer n start (end ++ ys) (omega (arith, length-append end ys, fits)))
]

-- The two halves of a cap, and what stands between them.
pub halves :
    (n : ℕ) (t : Text)
    → 2 * n ≤ length t
    → (middle : Text) × (t ≡ take n t ++ middle ++ take_last n t)
unfolding take_last
halves n t h =
    let start = take (length t - n) t in
    let whole = take-append-drop (length t - n) t in
    let same =
      sym (ap (take n) whole)
      ∙ take-append n start (take_last n t) (omega (arith, h, length-take (length t - n) t)) in
    (
      drop n start,
      sym whole
          ∙ ap (λ s. s ++ take_last n t)
              (sym (take-append-drop n start) ∙ ap (λ s. s ++ drop n start) (sym same)),
    )
