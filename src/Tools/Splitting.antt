-- ===== src/Tools/Splitting.antt =====
-- A text split at a separator, and a text cut back to its last line break.
use doota.Prelude.{
  ℕ, suc, ◌≡◌, ◌⊎◌, inl, inr, refl, sym, ap, ◌∙◌, Bool, true, false, List, [], ◌∷◌, ◌++◌, none,
  some, ◌==◌, ltb, take, drop, All, exists_row, arith, Bool-cases, Option-cases, append_assoc,
  eq_self,
}
use doota.Prelude.Text.{Text, is_empty, join, split_step, split_at_char}
use doota.Tools.Truncate.{cut_back, last_index_byte}

module _ (sep : ℕ) where
  pub split_at_char-is_empty : (t : Text) → is_empty (split_at_char sep t) ≡ false
  unfolding split_at_char split_step is_empty
  split_at_char-is_empty [] = refl
  split_at_char-is_empty (c ∷ cs) = grown (c == sep) (split_at_char sep cs)
    where
      grown : (b : Bool) (ls : List Text) → is_empty (split_step b c ls) ≡ false
      grown true ls = refl
      grown false [] = refl
      grown false (l ∷ ls) = refl

  split_step-append :
      (b : Bool) (c : ℕ) (ls ms : List Text)
      → is_empty ls ≡ false
      → split_step b c (ls ++ ms) ≡ split_step b c ls ++ ms
  unfolding split_step is_empty
  split_step-append true c ls ms h = refl
  split_step-append false c [] ms h = absurd cc
  split_step-append false c (l ∷ ls) ms h = refl

  -- Splitting at a separator gives the pieces before it, then those after it.
  pub split_at_char-append :
      (s t : Text) → split_at_char sep (s ++ sep ∷ t) ≡ split_at_char sep s ++ split_at_char sep t
  unfolding split_at_char split_step
  split_at_char-append [] t = rw (eq_self sep) refl
  split_at_char-append (c ∷ cs) t =
      ap (split_step (c == sep) c) (split_at_char-append cs t)
      ∙ split_step-append (c == sep) c (split_at_char sep cs) (split_at_char sep t)
          (split_at_char-is_empty cs)

  pub split_at_char-piece :
      (s : Text) → exists_row (λ c. c == sep) s ≡ false → split_at_char sep s ≡ s ∷ []
  unfolding split_at_char split_step exists_row
  split_at_char-piece [] h = refl
  split_at_char-piece (c ∷ cs) h =
      let other : (c == sep) ≡ false = ground arith in
      rw (other, split_at_char-piece cs (ground arith)) refl

  pub split_at_char-join :
      (l : Text) (ls : List Text)
      → All (λ s. exists_row (λ c. c == sep) s ≡ false) (l ∷ ls)
      → split_at_char sep (join (sep ∷ []) (l ∷ ls)) ≡ l ∷ ls
  unfolding join
  split_at_char-join l [] all = split_at_char-piece l all.0
  split_at_char-join l (m ∷ ms) all =
      ap (split_at_char sep) (append_assoc l (sep ∷ []) (join (sep ∷ []) (m ∷ ms)))
      ∙ split_at_char-append l (join (sep ∷ []) (m ∷ ms))
      ∙ rw (split_at_char-piece l all.0) (ap (λ ts. l ∷ ts) (split_at_char-join m ms all.1))

last_index_byte-some :
    (b : ℕ) (t : Text) (i : ℕ) → last_index_byte b t ≡ some i → t ≡ take i t ++ b ∷ drop (suc i) t
unfolding last_index_byte
last_index_byte-some b [] i h = absurd cc
last_index_byte-some b (c ∷ cs) i h = elim (Option-cases (last_index_byte b cs)) [
  | inl gone ↦ elim (Bool-cases (c == b)) [
    | inl hit ↦
        let at_once : some 0 ≡ some i = rw (gone, hit, last_index_byte) at h in
        let first : 0 ≡ i = ground arith in
        let same : c ≡ b = ground arith in rw (sym first, same) refl
    | inr miss ↦ absurd (let wrong : none ≡ some i = rw (gone, miss, last_index_byte) at h in cc)
  ]
  | inr (j, found) ↦
      let later : some (suc j) ≡ some i = rw (found, last_index_byte) at h in
      let index : suc j ≡ i = ground arith in
      rw (sym index) (ap (λ t. c ∷ t) (last_index_byte-some b cs j found))
]

-- A text cut back ends where a line ends, or was not cut back.
pub cut_back-line :
    (t : Text) → ((rest : Text) × (t ≡ cut_back t ++ b'\n' ∷ rest)) ⊎ (cut_back t ≡ t)
unfolding cut_back
cut_back-line t = elim (Option-cases (last_index_byte b'\n' t)) [
  | inl gone ↦ rw (gone, cut_back) (inr refl)
  | inr (i, found) ↦ elim (Bool-cases (ltb 0 i)) [
    | inl later ↦
        rw (found, later, cut_back) (inl (drop (suc i) t, last_index_byte-some b'\n' t i found))
    | inr first ↦ rw (found, first, cut_back) (inr refl)
  ]
]
