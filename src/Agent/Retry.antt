-- ===== src/Agent/Retry.antt =====
-- How often a model call is repeated, and how long the waits are.
use doota.Prelude.{
  ◌↔◌, ℕ, zero, suc, ◌+◌, ◌/◌, ◌≤◌, ◌≡◌, refl, Bool, true, false, not, List, none, some, arith,
  if◌then◌else◌,
}
use doota.Store.Schema.{Message}
use doota.Model.Response.{Response, is_silent, silent_cause, not_silent}
use doota.Store.Query.{canceled}
use doota.Agent.State.{Service}
use doota.Agent.Outside.{Outside, meanwhile}
use doota.Agent.Stream.{
  Streamed, retry, stream_with_retry, max_attempts, backoff, wait, has_output, is_final, returned,
}

-- The attempts that a choice between the ends of an attempt reports.
attempts_lem :
    (lo hi : ℕ) (final cancelled : Bool) (left : ℕ) (x y z : Streamed) (s : Service)
    (next : Streamed × Service)
    → (lo ≤ x.attempts) × (x.attempts ≤ hi)
    → (lo ≤ y.attempts) × (y.attempts ≤ hi)
    → (lo ≤ z.attempts) × (z.attempts ≤ hi)
    → ((k : ℕ) → left ≡ suc k → (lo ≤ next.0.attempts) × (next.0.attempts ≤ hi))
    → let st = elim final as (λ _. Streamed × Service) [
      | true ↦ (x, s)
      | false ↦ elim left as (λ _. Streamed × Service) [
        | zero ↦ (y, s)
        | suc _ ↦ if cancelled then (z, s) else next
      ]
    ] in
      (lo ≤ st.0.attempts) × (st.0.attempts ≤ hi)
attempts_lem lo hi true cancelled left x y z s next hx hy hz hn = hx
attempts_lem lo hi false cancelled zero x y z s next hx hy hz hn = hy
attempts_lem lo hi false true (suc left) x y z s next hx hy hz hn = hz
attempts_lem lo hi false false (suc left) x y z s next hx hy hz hn = hn left refl

retry-attempts :
    (o : Outside) (history : List Message) (left attempt : ℕ) (s : Service)
    → let st = (retry o history (suc left) attempt s).0 in
      (suc attempt ≤ st.attempts) × (st.attempts ≤ attempt + suc left)
unfolding retry
retry-attempts o history zero attempt s =
    let reply = o.model attempt history s in
    let s' = meanwhile reply.happenings s in
    attempts_lem (suc attempt) (attempt + 1) (is_final reply) (o.cancelled attempt s') zero
      (returned reply (suc attempt))
      (record { response = none; failure = reply.failure; attempts = suc attempt })
      (record { response = none; failure = some canceled; attempts = suc attempt }) s'
      (retry o history zero (suc attempt) s') (omega arith, omega arith) (omega arith, omega arith)
      (omega arith, omega arith) (λ k e. absurd (omega arith))
retry-attempts o history (suc left) attempt s =
    let reply = o.model attempt history s in
    let s' = meanwhile reply.happenings s in
    let h = retry-attempts o history left (suc attempt) s' in
    attempts_lem (suc attempt) (attempt + suc (suc left)) (is_final reply) (o.cancelled attempt s')
      (suc left) (returned reply (suc attempt))
      (record { response = none; failure = reply.failure; attempts = suc attempt })
      (record { response = none; failure = some canceled; attempts = suc attempt }) s'
      (retry o history (suc left) (suc attempt) s') (omega arith, omega arith)
      (omega arith, omega arith) (omega arith, omega arith)
      (λ k e. (omega (arith, h.0), omega (arith, h.1)))

-- A model call is made at least once and at most four times, whatever the model does.
pub stream_with_retry-attempts :
    (o : Outside) (history : List Message) (s : Service)
    → let st = (stream_with_retry o history s).0 in (1 ≤ st.attempts) × (st.attempts ≤ max_attempts)
unfolding stream_with_retry
stream_with_retry-attempts o history s = retry-attempts o history 3 0 s

-- An attempt that ended without an error, was cancelled, or gave text or a tool call is the last
-- one, and its response and error are what the call returns.
pub stream_with_retry-final :
    (o : Outside) (history : List Message) (s : Service)
    → is_final (o.model 0 history s) ≡ true
    → ((stream_with_retry o history s).0.attempts ≡ 1)
      × ((stream_with_retry o history s).0.response ≡ (o.model 0 history s).response)
      × ((stream_with_retry o history s).0.failure ≡ (o.model 0 history s).failure)
unfolding stream_with_retry retry
stream_with_retry-final o history s e = rw (e, retry, stream_with_retry) (refl, refl, refl)

-- With the jitter of at most half of each delay, the waits between four attempts add up to seven
-- seconds at most.
pub wait-total :
    (a b c : ℕ)
    → a ≤ backoff 0 / 2
    → b ≤ backoff 1 / 2
    → c ≤ backoff 2 / 2
    → wait 0 a + wait 1 b + wait 2 c ≤ 7000
unfolding wait backoff
wait-total a b c ha hb hc = omega arith

-- A response has output, for the retry, exactly where it is not silent, for the runner.
pub has_output-is_silent : (r : Response) → has_output r ≡ not (is_silent r)
unfolding has_output is_silent
has_output-is_silent r = ground arith

-- The runner takes a response exactly where it has output; a silent one always has a cause.
pub silent_cause-has_output : (r : Response) → (has_output r ≡ true) ↔ (silent_cause r ≡ not_silent)
unfolding silent_cause
silent_cause-has_output r = rw (has_output-is_silent r) (λ h. ground arith, λ h. ground arith)
