-- ===== src/Float64.antt =====
-- Go's float64, which the schedulers compute scores in: a type with the operations that the code
-- calls, and the order laws of IEEE 754 that it relies on.
use task_orchestrator.Prelude.{ℕ, ◌≡◌, Bool, true, false}
use task_orchestrator.Prelude.Int.{ℤ}

pub record Float64 : Type 1 where
  pub F : Type 0
  pub lt : F → F → Bool
  pub le : F → F → Bool
  pub add : F → F → F
  pub sub : F → F → F
  pub div : F → F → F
  pub pow : F → F → F
  pub of_int : ℤ → F
  pub of_uint : ℕ → F
  pub lieb : F

-- `is_number` is false of NaN only, which compares false with everything.
pub record FloatOrder (fl : Float64) : Type 0 where
  pub is_number : fl.F → Bool
  pub lt_irrefl : (a : fl.F) → fl.lt a a ≡ false
  pub lt_trans : (a b c : fl.F) → fl.lt a b ≡ true → fl.lt b c ≡ true → fl.lt a c ≡ true
  pub ge_trans :
      (a b c : fl.F)
      → is_number b ≡ true
      → fl.lt a b ≡ false
      → fl.lt b c ≡ false
      → fl.lt a c ≡ false
