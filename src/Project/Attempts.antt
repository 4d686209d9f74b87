-- ===== src/Project/Attempts.antt =====
-- The attempts of an operation on the sandbox.
use doota.Prelude.{
  ℕ, zero, suc, ◌+◌, ◌≤◌, ◌<◌, ◌≡◌, ◌⊎◌, refl, ◌∙◌, Bool, true, false, arith, if◌then◌else◌, inl,
  inr, Bool-cases, ◌==◌,
}
use doota.Store.Query.{Error, Result, ok, err, canceled}
use doota.Project.Service.{is_fatal, retry_from, retry_sandbox, sandbox_attempts}

-- An attempt that another one follows.
abbrev pub Fails {ℓ} : {A : Type ℓ} → (ℕ → Result A) → ℕ → Type ℓ
Fails fn k = (e : Error) × (fn k ≡ err e) × (is_fatal e ≡ false)

-- How the attempt `n`, with `last` the number of the last, ends the operation with `r`.
abbrev pub Ends {ℓ} : {A : Type ℓ} → (ℕ → Result A) → (ℕ → Bool) → ℕ → ℕ → Result A → Type ℓ
Ends {A} fn stops last n r =
    ((a : A) × (fn n ≡ ok a) × (r ≡ ok a))
    ⊎ ((e : Error) × (fn n ≡ err e) × (r ≡ err e) × ((is_fatal e ≡ true) ⊎ (n ≡ last)))
    ⊎ (Fails fn n × (stops n ≡ true) × (n < last) × (r ≡ err canceled))

Result-cases {ℓ} :
    {A : Type ℓ} (r : Result A) → ((e : Error) × (r ≡ err e)) ⊎ ((a : A) × (r ≡ ok a))
Result-cases (err e) = inl (e, refl)
Result-cases (ok a) = inr (a, refl)

module _ {ℓ} {A : Type ℓ} (fn : ℕ → Result A) (stops : ℕ → Bool) where
  -- The attempts from `attempt` up to the one that ends the operation.
  abbrev Ended : ℕ → ℕ → Result A → Type ℓ
  Ended attempt last r =
      (n : ℕ) × (attempt ≤ n)
      × (n ≤ last)
      × ((k : ℕ) → attempt ≤ k → k < n → Fails fn k)
      × Ends fn stops last n r

  here-Ended :
      (attempt last : ℕ) (r : Result A)
      → attempt ≤ last
      → Ends fn stops last attempt r
      → Ended attempt last r
  here-Ended attempt last r le e =
      (attempt, omega arith, le, λ k from below. absurd (omega arith), e)

  later-Ended :
      (attempt last : ℕ) (r : Result A)
      → Fails fn attempt
      → Ended (suc attempt) last r
      → Ended attempt last r
  later-Ended attempt last r fails (n, from, le, before, e) = (n, omega arith, le, earlier, e)
    where
      earlier : (k : ℕ) → attempt ≤ k → k < n → Fails fn k
      earlier k at below = elim (Bool-cases (k == attempt)) [
        | inl first ↦ let same : attempt ≡ k = ground arith in rw (← same) fails
        | inr other ↦ before k (ground arith) below
      ]

  retry_from-ok :
      (left attempt : ℕ) (a : A) → fn attempt ≡ ok a → retry_from fn stops (suc left) attempt ≡ ok a
  unfolding retry_from
  retry_from-ok left attempt a h = rw (h, retry_from)

  retry_from-fatal :
      (left attempt : ℕ) (e : Error)
      → fn attempt ≡ err e
      → is_fatal e ≡ true
      → retry_from fn stops (suc left) attempt ≡ err e
  unfolding retry_from
  retry_from-fatal left attempt e h fatal = rw (h, retry_from, fatal)

  retry_from-last :
      (attempt : ℕ) (e : Error) → fn attempt ≡ err e → retry_from fn stops 1 attempt ≡ err e
  unfolding retry_from
  retry_from-last attempt e h = elim (Bool-cases (is_fatal e)) [
    | inl fatal ↦ rw (h, retry_from, fatal)
    | inr mild ↦ rw (h, retry_from, mild)
  ]

  retry_from-again :
      (left attempt : ℕ) (e : Error)
      → fn attempt ≡ err e
      → is_fatal e ≡ false
      → retry_from fn stops (suc (suc left)) attempt
        ≡ (if stops attempt then err canceled else retry_from fn stops (suc left) (suc attempt))
  unfolding retry_from
  retry_from-again left attempt e h mild = rw (h, retry_from, mild)

  retry_from-Ended :
      (left attempt last : ℕ)
      → last ≡ attempt + left
      → Ended attempt last (retry_from fn stops (suc left) attempt)
  retry_from-Ended zero attempt last end =
      here-Ended attempt last (retry_from fn stops 1 attempt) (omega arith)
        (elim (Result-cases (fn attempt)) [
          | inr (a, good) ↦ inl (a, good, retry_from-ok 0 attempt a good)
          | inl (e, bad) ↦ inr (inl (e, bad, retry_from-last attempt e bad, inr (omega arith)))
        ])
  retry_from-Ended (suc left) attempt last end =
      let r = retry_from fn stops (suc (suc left)) attempt in
      elim (Result-cases (fn attempt)) [
        | inr (a, good) ↦
            here-Ended attempt last r (omega arith)
              (inl (a, good, retry_from-ok (suc left) attempt a good))
        | inl (e, bad) ↦ elim (Bool-cases (is_fatal e)) [
          | inl fatal ↦
              here-Ended attempt last r (omega arith)
                (inr (inl (e, bad, retry_from-fatal (suc left) attempt e bad fatal, inl fatal)))
          | inr mild ↦ elim (Bool-cases (stops attempt)) [
            | inl stop ↦ here-Ended attempt last r (omega arith) (
                inr (
                  inr (
                    (e, bad, mild),
                    stop,
                    omega arith,
                    retry_from-again left attempt e bad mild ∙ rw stop,
                  )))
            | inr go ↦
                let next : r ≡ retry_from fn stops (suc left) (suc attempt) =
                  retry_from-again left attempt e bad mild ∙ rw go in
                rw next (
                  later-Ended attempt last (retry_from fn stops (suc left) (suc attempt))
                    (e, bad, mild) (retry_from-Ended left (suc attempt) last (omega arith)))
          ]
        ]
      ]

-- An operation on the sandbox ends after at most four attempts. Every attempt before the last made
-- failed with an error that another one might mend, and that attempt ends the operation with its
-- success, with its error where that is fatal or the attempt is the fourth, or with the
-- cancellation of the wait after it.
pub retry_sandbox-Ends :
    {A : Type 0} (fn : ℕ → Result A) (stops : ℕ → Bool)
    → (n : ℕ) × (n < sandbox_attempts)
      × ((k : ℕ) → k < n → Fails fn k)
      × Ends fn stops 3 n (retry_sandbox fn stops)
unfolding retry_sandbox
retry_sandbox-Ends fn stops =
    let (n, from, le, before, ended) = retry_from-Ended fn stops 3 0 3 (omega arith) in
    (n, omega arith, λ k below. before k (omega arith) below, ended)
