-- ===== src/Errors.antt =====
-- The error types of internal/*/errors.go, which are the same struct in each package, and
-- `errors.Is` over their chains. The message and the stack, which only logs show, are left out.
use task_orchestrator.Prelude.{
  ◌≡◌, refl, ◌⊎◌, inl, inr, Bool, true, false, ◌||◌, List, [], ◌∷◌, String,
}

-- The sentinels that the code matches on: store.ErrNotFound, manager.errWorkerUnreachable and
-- bbolt's ErrBucketNotFound.
pub data Sentinel : Type 0 where
  not_found worker_unreachable bucket_not_found : Sentinel

-- `origin` and `origin_of` are `E` without and with a cause, `wrapped` is `Wrap`, `joined` is
-- `errors.Join`. `foreign` is an error of other code, which is no sentinel.
pub data Error : Type 0 where
  foreign : Error
  sentinel : Sentinel → Error
  joined : Error → Error → Error
  origin : String → Error
  origin_of : String → Error → Error
  wrapped : String → Error → Error

abbrev pub same_sentinel : Sentinel → Sentinel → Bool
same_sentinel not_found not_found = true
same_sentinel worker_unreachable worker_unreachable = true
same_sentinel bucket_not_found bucket_not_found = true
same_sentinel _ _ = false

-- `errors.Is(err, target)`: the walk goes through `Unwrap`, and through each part of a join.
unfoldable pub errors_is : Error → Sentinel → Bool
errors_is foreign t = false
errors_is (sentinel s) t = same_sentinel s t
errors_is (joined a b) t = errors_is a t || errors_is b t
errors_is (origin op) t = false
errors_is (origin_of op e) t = errors_is e t
errors_is (wrapped op e) t = errors_is e t

pub data Result {ℓ} (A : Type ℓ) : Type ℓ where
  ok : A → Result A
  err : Error → Result A

infixl 5 ◌>>=◌
abbrev pub ◌>>=◌ {ℓ κ} : {A : Type ℓ} {B : Type κ} → Result A → (A → Result B) → Result B
ok a >>= f = f a
err e >>= f = err e

-- `if err != nil { return Wrap(op, …, err) }`
abbrev pub or_wrap {ℓ} : {A : Type ℓ} → String → Result A → Result A
or_wrap op (ok a) = ok a
or_wrap op (err e) = err (wrapped op e)

-- `if err != nil { return E(op, …, err) }`
abbrev pub or_origin {ℓ} : {A : Type ℓ} → String → Result A → Result A
or_origin op (ok a) = ok a
or_origin op (err e) = err (origin_of op e)

-- `errors.Join` of one error or more.
abbrev pub join : Error → List Error → Error
join e [] = e
join e (f ∷ fs) = joined e (join f fs)

pub Result-cases {ℓ} :
    {A : Type ℓ} (r : Result A) → ((a : A) × (r ≡ ok a)) ⊎ ((e : Error) × (r ≡ err e))
Result-cases (ok a) = inl (a, refl)
Result-cases (err e) = inr (e, refl)

pub ok_inj {ℓ} : {A : Type ℓ} {a b : A} → ok a ≡ ok b → a ≡ b
ok_inj e = cc

pub err-ne-ok {ℓ} : {A : Type ℓ} {x : Error} {a : A} → err x ≡ ok a → ⊥
err-ne-ok e = cc
