-- ===== src/HttpApi/Retry.antt =====
-- What a caller of `HTTPWithRetry` can rely on.
use Prim.Native.Nat.add
use task_orchestrator.Prelude.{
  ◌⊎◌, inl, inr, refl, ℕ, zero, suc, ◌+◌, ◌-◌, ◌≤◌, ◌<◌, ◌≡◌, ap, ◌∙◌, Option, none, some, List, [],
  ◌∷◌, ◌++◌, subst, arith,
}
use task_orchestrator.Prelude.Int.{ℤ, pos, pos_part}
use task_orchestrator.HttpApi.{
  Attempts, retry_loop, http_with_retry, RetryConfig, RetryOption, with_retry_limit, resolve,
  retry_limit, retry_delay, call_with_retry,
}

module _ {R E : Type 0} (a : Attempts R E) where
  -- Attempt i failed, and neither the context nor the wait after it ended the call.
  abbrev pub GoesOn : ℕ → Type 0
  GoesOn i = (e : E) × ((a.fn i).1 ≡ some e) × (a.ctx_err i ≡ none) × (a.wait i ≡ none)

  calls-retry_loop :
      (rounds i : ℕ) (last : Option R × Option E) → (retry_loop a rounds i last).calls ≤ i + rounds
  unfolding retry_loop
  calls-retry_loop zero i last = omega arith
  calls-retry_loop (suc rounds) i last =
      ground (arith, calls-retry_loop rounds (i + 1) ((a.fn i).0, (a.fn i).1))

  step-retry_loop :
      (rounds i : ℕ) (last : Option R × Option E)
      → GoesOn i
      → retry_loop a (suc rounds) i last ≡ retry_loop a rounds (i + 1) (a.fn i)
  unfolding retry_loop
  step-retry_loop rounds i last g = ground arith

  -- So did k attempts from i on.
  abbrev pub AllGoOn : ℕ → ℕ → Type 0
  AllGoOn zero i = Unit
  AllGoOn (suc k) i = GoesOn i × AllGoOn k (i + 1)

  skip-retry_loop :
      (k rounds i j : ℕ) (last : Option R × Option E)
      → i + k ≡ j
      → AllGoOn k i
      → (l : Option R × Option E) × (retry_loop a (k + suc rounds) i last
          ≡ retry_loop a (suc rounds) j l)
  skip-retry_loop zero rounds i j last e g =
      let eq : i ≡ j = omega arith in (last, rw (add.zero (suc rounds), eq))
  skip-retry_loop (suc k) rounds i j last e (g, gs) =
      let (l, p) = skip-retry_loop k rounds (i + 1) j (a.fn i) (omega arith) gs in
      (l, rw (add.suc k (suc rounds)) (step-retry_loop (k + suc rounds) i last g ∙ p))

  reach :
      (k n : ℕ)
      → k < n
      → AllGoOn k 0
      → (l : Option R × Option E) × (http_with_retry a (pos n) ≡ retry_loop a (suc (n - k - 1)) k l)
  unfolding http_with_retry
  reach k n h g =
      let e : n ≡ k + suc (n - k - 1) = omega arith in
      let (l, p) = skip-retry_loop k (n - k - 1) 0 k (none, none) (omega arith) g in
      (l, ap (λ m. retry_loop a m 0 (none, none)) e ∙ p)

  -- When the first k attempts fail without being cut short and k is below the limit, attempt k
  -- decides: its success is returned, a context that is done by then ends the call with both
  -- errors, and so does one that ends the wait before another round; in the last round its own
  -- response and error are returned. `fn` was then called k + 1 times.
  pub retry_outcome :
      (k n : ℕ) (res : Option R)
      → k < n
      → AllGoOn k 0
      → ((a.fn k ≡ (res, none))
          → http_with_retry a (pos n) ≡ record { response = res; error = []; calls = k + 1 })
        × ((e c : E)
            → a.fn k ≡ (res, some e)
            → a.ctx_err k ≡ some c
            → http_with_retry a (pos n)
              ≡ record { response = none; error = e ∷ c ∷ []; calls = k + 1 })
        × ((e c : E)
            → a.fn k ≡ (res, some e)
            → a.ctx_err k ≡ none
            → a.wait k ≡ some c
            → k + 1 < n
            → http_with_retry a (pos n)
              ≡ record { response = none; error = e ∷ c ∷ []; calls = k + 1 })
        × ((e : E)
            → a.fn k ≡ (res, some e)
            → a.ctx_err k ≡ none
            → k + 1 ≡ n
            → http_with_retry a (pos n) ≡ record { response = res; error = e ∷ []; calls = k + 1 })
  unfolding retry_loop
  retry_outcome k n res h g =
      let (l, p) = reach k n h g in
      (
        (λ f. p ∙ (ground arith)),
        (λ e c f x. p ∙ (ground arith)),
        (λ e c f x w m. p ∙ (ground arith)),
        (λ e f x m. p ∙ (ground arith)),
      )

  -- If the first k attempts fail without being cut short, k below the limit, and attempt k
  -- succeeds, its response is returned with no error, after k + 1 calls.
  pub retry_success :
      (k n : ℕ) (res : Option R)
      → k < n
      → AllGoOn k 0
      → a.fn k ≡ (res, none)
      → http_with_retry a (pos n) ≡ record { response = res; error = []; calls = k + 1 }
  retry_success k n res h g f = (retry_outcome k n res h g).0 f

  -- If the first k attempts fail without being cut short, k below the limit, and attempt k fails
  -- with the context done, or with the context ending the wait before another round, the call
  -- returns no response and both errors, after k + 1 calls.
  pub retry_cancelled :
      (k n : ℕ) (res : Option R) (e c : E)
      → k < n
      → AllGoOn k 0
      → a.fn k ≡ (res, some e)
      → (a.ctx_err k ≡ some c) ⊎ (a.ctx_err k ≡ none) × (a.wait k ≡ some c) × (k + 1 < n)
      → http_with_retry a (pos n) ≡ record { response = none; error = e ∷ c ∷ []; calls = k + 1 }
  retry_cancelled k n res e c h g f (inl x) = (retry_outcome k n res h g).1 e c f x
  retry_cancelled k n res e c h g f (inr (x, w, m)) = (retry_outcome k n res h g).2 e c f x w m

  -- If the attempts before the last of n fail without being cut short, and the last fails with the
  -- context alive, the response and the error of the last are returned, after n calls.
  pub retry_exhausted :
      (k : ℕ) (res : Option R) (e : E)
      → AllGoOn k 0
      → a.fn k ≡ (res, some e)
      → a.ctx_err k ≡ none
      → http_with_retry a (pos (k + 1)) ≡ record { response = res; error = e ∷ []; calls = k + 1 }
  retry_exhausted k res e g f x = (retry_outcome k (k + 1) res (omega arith) g).3 e f x refl

  -- Whatever happens, `fn` is called no more often than the limit says, and not at all if the
  -- limit is negative.
  pub calls-http_with_retry : (limit : ℤ) → (http_with_retry a limit).calls ≤ pos_part limit
  unfolding http_with_retry
  calls-http_with_retry limit = omega (arith, calls-retry_loop (pos_part limit) 0 (none, none))

resolve-append :
    (opts more : List RetryOption) (c : RetryConfig)
    → resolve (opts ++ more) c ≡ resolve more (resolve opts c)
unfolding resolve
resolve-append [] more c = refl
resolve-append (opt ∷ opts) more c = resolve-append opts more (opt c)

-- Whatever options come before it, and whatever the attempts bring, a last option that sets the
-- retry limit caps how often the function is called, at no call for a negative limit; and with no
-- options the function is called three times at most.
pub calls-call_with_retry :
    {R E : Type 0} (attempts : ℤ → Attempts R E) (opts : List RetryOption) (n : ℤ)
    → ((call_with_retry attempts (opts ++ with_retry_limit n ∷ [])).calls ≤ pos_part n)
      × ((call_with_retry attempts []).calls ≤ 3)
unfolding call_with_retry resolve with_retry_limit
calls-call_with_retry attempts opts n =
    let start : RetryConfig = record { limit = retry_limit; delay = retry_delay } in
    let set : (resolve (opts ++ with_retry_limit n ∷ []) start).limit ≡ n =
      ap (λ (c : RetryConfig). c.limit) (resolve-append opts (with_retry_limit n ∷ []) start) in
    (
      subst
          (λ limit.
            (http_with_retry (attempts (resolve (opts ++ with_retry_limit n ∷ []) start).delay)
              (resolve (opts ++ with_retry_limit n ∷ []) start).limit).calls
            ≤ pos_part limit)
          set
          (calls-http_with_retry (attempts (resolve (opts ++ with_retry_limit n ∷ []) start).delay)
            (resolve (opts ++ with_retry_limit n ∷ []) start).limit),
      calls-http_with_retry (attempts retry_delay) retry_limit,
    )
