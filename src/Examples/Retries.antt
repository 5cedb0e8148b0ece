-- ===== src/Examples/Retries.antt =====
-- The theorems on retried requests, at a call that fails twice.
use task_orchestrator.Prelude.{
  ℕ, ◌≡◌, refl, ◌≤◌, inr, none, some, List, [], ◌∷◌, arith, ◌==◌, if◌then◌else◌,
}
use task_orchestrator.Prelude.Int.{pos}
use task_orchestrator.HttpApi.{
  Attempts, http_with_retry, RetryOption, with_retry_limit, with_retry_delay, call_with_retry,
}
use task_orchestrator.HttpApi.Retry.{retry_cancelled, calls-call_with_retry}

-- The third attempt succeeds with response 9, the others fail.
abbrev flaky : Attempts ℕ ℕ
flaky = record {
  fn = λ i. if i == 2 then (some 9, none) else (none, some i);
  ctx_err = λ i. none;
  wait = λ i. none;
}

-- The wait after the first attempt is cut short with error 5.
abbrev cut : Attempts ℕ ℕ
cut = record { fn = λ i. (none, some i); ctx_err = λ i. none; wait = λ i. some 5 }

retry_cancelled_example :
    http_with_retry cut (pos 3) ≡ record { response = none; error = 0 ∷ 5 ∷ []; calls = 1 }
retry_cancelled_example =
    retry_cancelled cut 0 3 none 0 5 (omega arith) tt refl (inr (refl, refl, omega arith))

-- A longer delay, and one attempt less.
abbrev settings : List RetryOption
settings = with_retry_delay (pos 9) ∷ []

calls-call_with_retry_example :
    ((call_with_retry
        (λ delay. flaky)
        (with_retry_delay (pos 9) ∷ with_retry_limit (pos 2) ∷ [])).calls
      ≤ 2)
    × ((call_with_retry (λ delay. flaky) []).calls ≤ 3)
calls-call_with_retry_example = calls-call_with_retry (λ delay. flaky) settings (pos 2)
