-- ===== src/Store/Rows.antt =====
-- Which row a statement finds, before and after an update.
use doota.Prelude.{
  ◌≤◌, ◌≡◌, refl, Bool, true, false, List, [], ◌∷◌, none, some, arith, first_row, update_rows,
  exists_row, where_rows, map, Bool-cases, inl, inr, count_rows,
}

-- The first row of `p` is also the first of a test that picks it out of those of `p`.
pub first_row-narrow :
    {A : Type 0} (p q : A → Bool) (rows : List A) (r : A)
    → ((x : A) → q x ≡ true → p x ≡ true)
    → first_row p rows ≡ some r
    → q r ≡ true
    → first_row q rows ≡ some r
unfolding first_row
first_row-narrow p q [] r sub h hit = cc
first_row-narrow p q (x ∷ xs) r sub h hit = ground (arith, sub x, first_row-narrow p q xs r sub)

-- After an update, the first row of a test that the update respects.
pub first_row-update :
    {A : Type 0} (p q : A → Bool) (f : A → A) (rows : List A) (r : A)
    → ((x : A) → p (f x) ≡ p x)
    → first_row p rows ≡ some r
    → q r ≡ true
    → first_row p (update_rows q f rows) ≡ some (f r)
unfolding first_row update_rows
first_row-update p q f [] r same h hit = cc
first_row-update p q f (x ∷ xs) r same h hit =
    ground (arith, same x, first_row-update p q f xs r same)

first_row-none :
    {A : Type 0} (p q : A → Bool) (rows : List A)
    → ((x : A) → q x ≡ true → p x ≡ true)
    → count_rows p rows ≡ 0
    → first_row q rows ≡ none
unfolding first_row count_rows
first_row-none p q [] sub nil = refl
first_row-none p q (x ∷ xs) sub nil = ground (arith, sub x, first_row-none p q xs sub)

-- Where at most one row passes `p`, and that one fails the narrower `q`, no row passes `q`.
pub first_row-only :
    {A : Type 0} (p q : A → Bool) (rows : List A) (r : A)
    → ((x : A) → q x ≡ true → p x ≡ true)
    → count_rows p rows ≤ 1
    → first_row p rows ≡ some r
    → q r ≡ false
    → first_row q rows ≡ none
unfolding first_row count_rows
first_row-only p q [] r sub one h miss = refl
first_row-only p q (x ∷ xs) r sub one h miss =
    ground (arith, sub x, first_row-none p q xs sub, first_row-only p q xs r sub)

-- Where at most one row passes `p`, the update of a row by a narrower test finds it again.
pub first_row-update_only :
    {A : Type 0} (p q : A → Bool) (f : A → A) (rows : List A) (r : A)
    → ((x : A) → q x ≡ true → p x ≡ true)
    → ((x : A) → q x ≡ true → p (f x) ≡ true)
    → count_rows p rows ≤ 1
    → first_row q rows ≡ some r
    → first_row p (update_rows q f rows) ≡ some (f r)
unfolding first_row update_rows count_rows
first_row-update_only p q f [] r sub into one h = cc
first_row-update_only p q f (x ∷ xs) r sub into one h =
    ground
      (arith, sub x, into x, first_row-none p q xs sub, first_row-update_only p q f xs r sub into)

-- Tests that agree find the same.
pub exists_row-same :
    {A : Type 0} (p q : A → Bool) (rows : List A)
    → ((x : A) → p x ≡ q x)
    → exists_row p rows ≡ exists_row q rows
unfolding exists_row
exists_row-same p q [] same = refl
exists_row-same p q (x ∷ xs) same = ground (arith, same x, exists_row-same p q xs same)

-- Rows outside `q` are read as before.
pub where_rows-update_rows_other :
    {A : Type 0} (p q : A → Bool) (f : A → A) (rows : List A)
    → ((x : A) → q x ≡ true → p x ≡ false)
    → ((x : A) → q x ≡ true → p (f x) ≡ false)
    → where_rows p (update_rows q f rows) ≡ where_rows p rows
unfolding where_rows update_rows
where_rows-update_rows_other p q f [] before after = refl
where_rows-update_rows_other p q f (x ∷ xs) before after =
    ground (arith, before x, after x, where_rows-update_rows_other p q f xs before after)

pub map-update_rows_same :
    {A B : Type 0} (g : A → B) (q : A → Bool) (f : A → A) (rows : List A)
    → ((x : A) → g (f x) ≡ g x)
    → map g (update_rows q f rows) ≡ map g rows
unfolding update_rows
map-update_rows_same g q f [] same = refl
map-update_rows_same g q f (x ∷ xs) same =
    ground (arith, same x, map-update_rows_same g q f xs same)

-- An update that lets no further row pass leaves no more rows that do.
pub count_rows-update_rows_le :
    {A : Type 0} (p q : A → Bool) (f : A → A) (rows : List A)
    → ((x : A) → q x ≡ true → p (f x) ≡ true → p x ≡ true)
    → count_rows p (update_rows q f rows) ≤ count_rows p rows
unfolding count_rows update_rows
count_rows-update_rows_le p q f [] keep = omega arith
count_rows-update_rows_le p q f (x ∷ xs) keep =
    ground (arith, keep x, count_rows-update_rows_le p q f xs keep)

-- One that takes each row it changes out of the test leaves none.
pub exists_row-update_rows_none :
    {A : Type 0} (p : A → Bool) (f : A → A) (rows : List A)
    → ((x : A) → p (f x) ≡ false)
    → exists_row p (update_rows p f rows) ≡ false
unfolding exists_row update_rows
exists_row-update_rows_none p f [] out = refl
exists_row-update_rows_none p f (x ∷ xs) out =
    ground (arith, out x, exists_row-update_rows_none p f xs out)

pub count_rows-exists_row :
    {A : Type 0} (p : A → Bool) (rows : List A) → exists_row p rows ≡ false → count_rows p rows ≡ 0
unfolding count_rows exists_row
count_rows-exists_row p [] h = refl
count_rows-exists_row p (x ∷ xs) h = ground (arith, count_rows-exists_row p xs)

-- An update outside the test does not change what it finds.
pub first_row-update_rows_other :
    {A : Type 0} (p q : A → Bool) (f : A → A) (rows : List A)
    → ((x : A) → q x ≡ true → p x ≡ false)
    → ((x : A) → q x ≡ true → p (f x) ≡ false)
    → first_row p (update_rows q f rows) ≡ first_row p rows
unfolding first_row update_rows
first_row-update_rows_other p q f [] before after = refl
first_row-update_rows_other p q f (x ∷ xs) before after =
    ground (arith, before x, after x, first_row-update_rows_other p q f xs before after)

pub first_row-exists_row :
    {A : Type 0} (p : A → Bool) (rows : List A)
    → exists_row p rows ≡ false
    → first_row p rows ≡ none
unfolding first_row exists_row
first_row-exists_row p [] h = refl
first_row-exists_row p (x ∷ xs) h = ground (arith, first_row-exists_row p xs)

pub first_row-exists_row_hit :
    {A : Type 0} (p : A → Bool) (rows : List A)
    → exists_row p rows ≡ true
    → (x : A) × (first_row p rows ≡ some x)
unfolding first_row exists_row
first_row-exists_row_hit p [] h = absurd (ground arith)
first_row-exists_row_hit p (x ∷ xs) h = elim (Bool-cases (p x)) [
  | inl hit ↦ (x, rw hit)
  | inr miss ↦
      let (y, found) = first_row-exists_row_hit p xs (rw miss at h) in (y, rw (miss, found))
]
