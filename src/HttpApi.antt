-- ===== src/HttpApi.antt =====
-- internal/httpapi/httpapi.go: a request that is tried again until it succeeds, and the error body
-- that every failing endpoint writes.
pub mod Retry
pub mod Router
pub mod TaskRoutes
use task_orchestrator.Prelude.{
  ℕ, zero, suc, ◌+◌, Option, none, some, List, [], ◌∷◌, String, Bool, ltb, if◌then◌else◌,
}
use task_orchestrator.Prelude.Int.{ℤ, pos, pos_part}

pub record ErrorResponse : Type 0 where
  pub message : String
  pub code : ℕ

-- The constants of net/http.
abbrev pub status_ok : ℕ
status_ok = 200

abbrev pub status_created : ℕ
status_created = 201

abbrev pub status_no_content : ℕ
status_no_content = 204

abbrev pub status_bad_request : ℕ
status_bad_request = 400

abbrev pub status_not_found : ℕ
status_not_found = 404

abbrev pub status_internal_error : ℕ
status_internal_error = 500

abbrev pub status_unavailable : ℕ
status_unavailable = 503

-- What a client reads of a response.
pub record Response : Type 0 where
  pub status : ℕ
  pub body : String

abbrev pub retry_limit : ℤ
retry_limit = pos 3

-- Five seconds, in nanoseconds.
abbrev pub retry_delay : ℤ
retry_delay = pos 5000000000

-- The settings of one call, without the logger.
pub record RetryConfig : Type 0 where
  pub limit : ℤ
  pub delay : ℤ

abbrev pub RetryOption : Type 0
RetryOption = RetryConfig → RetryConfig

unfoldable pub with_retry_limit : ℤ → RetryOption
with_retry_limit n c = record c { limit = n }

unfoldable pub with_retry_delay : ℤ → RetryOption
with_retry_delay d c = record c { delay = d }

-- The options are applied in their order.
unfoldable pub resolve : List RetryOption → RetryConfig → RetryConfig
resolve [] c = c
resolve (opt ∷ opts) c = resolve opts (opt c)

-- What a server writes: a status and a body, or the error body with the same status.
pub data Written {ℓ} (B : Type ℓ) : Type ℓ where
  json : ℕ → B → Written B
  error_json : ℕ → ErrorResponse → Written B
  header_only : ℕ → Written B

unfoldable pub write_json {ℓ} : {B : Type ℓ} → ℕ → B → Written B
write_json status body = json status body

unfoldable pub write_error {ℓ} : {B : Type ℓ} → ℕ → String → Written B
write_error status msg = error_json status (record { message = msg; code = status })

-- The context and the callback of one call of `HTTPWithRetry`, attempt by attempt: what `fn`
-- returns at attempt i (response and error, either may be nil), what `ctx.Err()` is right after it,
-- and whether the wait that follows ends by the context (with its error) or by the delay.
pub record Attempts (R E : Type 0) : Type 0 where
  pub fn : ℕ → Option R × Option E
  pub ctx_err : ℕ → Option E
  pub wait : ℕ → Option E

-- The returned response and error (a joined error is a list), and how often `fn` was called.
pub record Outcome (R E : Type 0) : Type 0 where
  pub response : Option R
  pub error : List E
  pub calls : ℕ

module _ {R E : Type 0} (a : Attempts R E) where
  abbrev error_list : Option E → List E
  error_list none = []
  error_list (some e) = e ∷ []

  -- What one attempt's outcome makes of the loop: `next` is the rest of it, and `more` tells
  -- whether there is another round.
  unfoldable pub after_attempt :
      ℕ → Bool → Option R × Option E → (Option R × Option E → Outcome R E) → Outcome R E
  after_attempt i more (res, none) next = record { response = res; error = []; calls = i + 1 }
  after_attempt i more (res, some err) next = elim (a.ctx_err i) [
    | some cancelled ↦ record { response = none; error = err ∷ cancelled ∷ []; calls = i + 1 }
    | none ↦
        if more
        then elim (a.wait i) [
          | some done ↦ record { response = none; error = err ∷ done ∷ []; calls = i + 1 }
          | none ↦ next (res, some err)
        ]
        else next (res, some err)
  ]

  -- `for i := range cfg.limit` from attempt i on, with as many rounds left. `last` is what `res`
  -- and `err` hold.
  unfoldable pub retry_loop : ℕ → ℕ → Option R × Option E → Outcome R E
  unfolding after_attempt
  retry_loop zero i last = record { response = last.0; error = error_list last.1; calls = i }
  retry_loop (suc rounds) i last =
      after_attempt i (ltb 0 rounds) (a.fn i) (λ last. retry_loop rounds (i + 1) last)

  -- `HTTPWithRetry` with the options resolved. A negative limit makes no round.
  unfoldable pub http_with_retry : ℤ → Outcome R E
  unfolding retry_loop
  http_with_retry limit = retry_loop (pos_part limit) 0 (none, none)

-- `HTTPWithRetry` with its options; the delay bears on how the waits end.
unfoldable pub call_with_retry :
    {R E : Type 0} → (ℤ → Attempts R E) → List RetryOption → Outcome R E
call_with_retry attempts opts =
    let cfg = resolve opts (record { limit = retry_limit; delay = retry_delay }) in
    http_with_retry (attempts cfg.delay) cfg.limit
