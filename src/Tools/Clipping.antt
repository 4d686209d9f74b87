-- ===== src/Tools/Clipping.antt =====
-- What a cap keeps of a text.
use doota.Prelude.{
  ℕ, suc, ◌-◌, ◌/◌, ◌≤◌, ◌<◌, ◌≡◌, refl, sym, ap, ◌∙◌, true, false, Bool-cases, inl, inr, [], ◌++◌,
  arith, ltb, leb, ◌==◌, ◌||◌, if◌then◌else◌, length, take, drop, length-append, length-take,
  append-nil, append_assoc, take-append-drop, Option, none, some,
}
use doota.Prelude.Text.{Text, codes}
use doota.Tools.Truncate.{
  index_byte, last_index_byte, cut_back, cut_front, clip, take_last, clip_middle, notice, cut_text,
}
use doota.Tools.Ends.{length-take_last, halves}

pub clip_middle-whole :
    (text : Text) (limit : ℕ) → length text ≤ limit → clip_middle text limit ≡ text
unfolding clip_middle
clip_middle-whole text limit h =
    let short : (limit == 0 || leb (length text) limit) ≡ true = ground arith in
    rw (short, clip_middle) refl

cut_back-prefix : (t : Text) → (cut : Text) × (t ≡ cut_back t ++ cut)
unfolding cut_back
cut_back-prefix t = by_index (last_index_byte b'\n' t)
  where
    by_index :
        (i : Option ℕ)
        → (cut : Text) × (t
            ≡ elim i as (λ _. Text) [ none ↦ t | some i ↦ if ltb 0 i then take i t else t ] ++ cut)
    by_index none = ([], sym (append-nil t))
    by_index (some i) =
        elim (ltb 0 i) as (λ b. (cut : Text) × (t ≡ (if b then take i t else t) ++ cut)) [
          | true ↦ (drop i t, sym (take-append-drop i t))
          | false ↦ ([], sym (append-nil t))
        ]

cut_front-suffix : (t : Text) → (cut : Text) × (t ≡ cut ++ cut_front t)
unfolding cut_front
cut_front-suffix t = by_index (index_byte b'\n' t)
  where
    by_index :
        (i : Option ℕ)
        → (cut : Text) × (t
            ≡ cut ++ elim i as (λ _. Text) [
              | none ↦ t
              | some i ↦ if ltb i (length t - 1) then drop (suc i) t else t
            ])
    by_index none = ([], refl)
    by_index (some i) =
        elim (ltb i (length t - 1))
          as (λ b. (cut : Text) × (t ≡ cut ++ (if b then drop (suc i) t else t))) [
            | true ↦ (take (suc i) t, sym (take-append-drop (suc i) t))
            | false ↦ ([], refl)
          ]

-- A text over the cap is shown as a start and an end of at most half of the cap each, with a notice
-- between them that gives the number of bytes left out and the size of the whole text.
pub clip_middle-parts :
    (text : Text) (limit : ℕ)
    → 1 ≤ limit
    → limit < length text
    → (head cut tail : Text) × (text ≡ head ++ cut ++ tail)
      × (length head ≤ limit / 2)
      × (length tail ≤ limit / 2)
      × (clip_middle text limit
          ≡ head ++ notice (cut_text (length cut) (length text)) ++ codes "\n" ++ tail)
unfolding clip_middle
clip_middle-parts text limit h long =
    let half = limit / 2 in
    let (c₁, front) = cut_back-prefix (take half text) in
    let (c₂, back) = cut_front-suffix (take_last half text) in
    let (middle, whole) = halves half text (omega (arith, long)) in
    let head = cut_back (take half text) in
    let tail = cut_front (take_last half text) in
    let cut = c₁ ++ middle ++ c₂ in
    let parts : text ≡ head ++ cut ++ tail =
      whole
      ∙ ap (λ s. s ++ middle ++ take_last half text) front
      ∙ ap (λ s. head ++ c₁ ++ middle ++ s) back
      ∙ simp append_assoc in
    let size : length text - length head - length tail ≡ length cut =
      omega (arith, ap length parts, length-append (head ++ cut) tail, length-append head cut) in
    let over : (limit == 0 || leb (length text) limit) ≡ false = ground arith in
    (
      head,
      cut,
      tail,
      parts,
      omega (arith, ap length front, length-append head c₁, length-take half text),
      omega (
        arith,
        ap length back,
        length-append c₂ tail,
        length-take_last half text (omega (arith, long)),
      ),
      rw (over, clip_middle)
          (ap (λ n. head ++ notice (cut_text n (length text)) ++ codes "\n" ++ tail) size),
    )

-- A cap gives a start of the text that is no longer than the cap, says that it cut exactly where the
-- text is longer than the cap, and otherwise gives the whole text.
pub clip-prefix :
    (text : Text) (limit : ℕ)
    → 1 ≤ limit
    → let (kept, cut) = clip text limit in
      ((rest : Text) × (text ≡ kept ++ rest))
      × (length kept ≤ limit)
      × (cut ≡ ltb limit (length text))
      × (cut ≡ false → kept ≡ text)
unfolding clip
clip-prefix text limit h = elim (Bool-cases (ltb limit (length text))) [
  | inl over ↦
      let test : (limit == 0 || leb (length text) limit) ≡ false = ground arith in
      let (gone, kept) = cut_back-prefix (take limit text) in
      let whole : text ≡ cut_back (take limit text) ++ (gone ++ drop limit text) =
        sym (take-append-drop limit text)
        ∙ ap (λ t. t ++ drop limit text) kept
        ∙ append_assoc (cut_back (take limit text)) gone (drop limit text) in
      rw (test, over, clip)
        (
          (gone ++ drop limit text, whole),
          omega (
            arith,
            ap length kept,
            length-append (cut_back (take limit text)) gone,
            length-take limit text,
          ),
          refl,
          λ e. cc,
        )
  | inr short ↦
      let test : (limit == 0 || leb (length text) limit) ≡ true = ground arith in
      rw (test, short, clip) (([], sym (append-nil text)), ground arith, refl, λ e. refl)
]
