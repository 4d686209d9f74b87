-- ===== src/Agent/Stream.antt =====
-- internal/agent/agent.go, `streamWithRetry`: a call is repeated only while it produced nothing.
use doota.Prelude.{
  ℕ, zero, suc, ◌+◌, ◌*◌, ◌/◌, ◌^◌, Bool, true, false, not, ◌||◌, List, Option, none, some, ltb,
  if◌then◌else◌,
}
use doota.Prelude.Text.{trim_space, is_empty}
use doota.Store.Schema.{Message}
use doota.Store.Query.{Error, canceled, is_canceled}
use doota.Model.Response.{Response}
use doota.Agent.State.{Service}
use doota.Agent.Outside.{ModelReply, Outside, meanwhile}

abbrev pub max_attempts : ℕ
max_attempts = 4

-- In milliseconds.
abbrev pub max_backoff : ℕ
max_backoff = 12000

-- The delay before the jitter.
unfoldable pub backoff : ℕ → ℕ
backoff attempt =
    let delay = 2 ^ attempt * 1000 in if ltb max_backoff delay then max_backoff else delay

-- The wait, where `random` is `rand.Int63n(delay/2 + 1)`, at most `delay/2`.
unfoldable pub wait : ℕ → ℕ → ℕ
unfolding backoff
wait attempt random = backoff attempt / 2 + random

-- Text or a tool call has arrived.
unfoldable pub has_output : Response → Bool
unfolding is_empty
has_output r = not (is_empty (trim_space r.content)) || not (is_empty r.tool_calls)

abbrev gave_output : Option Response → Bool
gave_output none = false
gave_output (some r) = has_output r

abbrev pub is_final : ModelReply → Bool
is_final reply = elim reply.failure [
  | none ↦ true
  | some e ↦ is_canceled e || gave_output reply.response
]

-- What a call of `streamWithRetry` returns: the last attempt's response and error, and how many
-- attempts were made.
pub record Streamed : Type 0 where
  pub response : Option Response
  pub failure : Option Error
  pub attempts : ℕ

abbrev pub returned : ModelReply → ℕ → Streamed
returned reply n = record { response = reply.response; failure = reply.failure; attempts = n }

-- `left` attempts remain, of which `attempt` is the number of the next.
unfoldable pub retry : Outside → List Message → ℕ → ℕ → Service → Streamed × Service
unfolding has_output is_canceled
retry o history zero attempt s = (record { response = none; failure = none; attempts = attempt }, s)
retry o history (suc left) attempt s =
    let reply = o.model attempt history s in
    let s' = meanwhile reply.happenings s in
    let again = retry o history left (suc attempt) s' in
    elim (is_final reply) [
      | true ↦ (returned reply (suc attempt), s')
      | false ↦ elim left [
        | zero ↦ (record { response = none; failure = reply.failure; attempts = suc attempt }, s')
        | suc _ ↦
            if o.cancelled attempt s'
            then (record { response = none; failure = some canceled; attempts = suc attempt }, s')
            else again
      ]
    ]

unfoldable pub stream_with_retry : Outside → List Message → Service → Streamed × Service
unfolding retry
stream_with_retry o history s = retry o history max_attempts 0 s
