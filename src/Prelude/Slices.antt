-- ===== src/Prelude/Slices.antt =====
-- What the code uses of Go's `slices` package, over lists.
use Prim.Native.Nat.{ℕ, zero, suc}
use mathlib.Core.Path.{◌≡◌, refl}
use mathlib.Core.Bool.{Bool, false, ◌||◌}
use mathlib.Core.Option.{Option, none, some}
use mathlib.Core.Option
use mathlib.Core.List.{List, [], ◌∷◌, ◌++◌}
use native.Mathlib.Omega.{arith}
use task_orchestrator.Prelude.Tests.{if◌then◌else◌}
use task_orchestrator.Prelude.Assoc.{Eq}

module _ {ℓ} {A : Type ℓ} ⦃e : Eq A⦄ where
  -- `slices.Contains`
  unfoldable pub contains : List A → A → Bool
  contains [] a = false
  contains (x ∷ xs) a = e.beq x a || contains xs a

  -- `slices.Index`; `none` is -1.
  unfoldable pub index : List A → A → Option ℕ
  index [] a = none
  index (x ∷ xs) a = if e.beq x a then some 0 else Option.map suc (index xs a)

  -- `slices.Delete(s, i, i+1)`
  unfoldable pub delete_at : List A → ℕ → List A
  delete_at [] i = []
  delete_at (x ∷ xs) zero = xs
  delete_at (x ∷ xs) (suc i) = x ∷ delete_at xs i

  -- The guarded pair of calls that the code makes.
  unfoldable pub delete_first : List A → A → List A
  unfolding index delete_at
  delete_first xs a = elim (index xs a) [ none ↦ xs | some i ↦ delete_at xs i ]

  pub contains-append :
      (xs : List A) (a b : A) → contains (xs ++ b ∷ []) a ≡ (contains xs a || e.beq b a)
  unfolding contains
  contains-append [] a b = ground arith
  contains-append (x ∷ xs) a b = ground (arith, contains-append xs a b)

  delete_first-cons :
      (x : A) (xs : List A) (a : A)
      → delete_first (x ∷ xs) a ≡ (if e.beq x a then xs else x ∷ delete_first xs a)
  unfolding delete_first
  delete_first-cons x xs a = ground arith

  -- Removing one item leaves the others.
  pub contains-delete_first_other :
      (xs : List A) (a b : A) → e.beq a b ≡ false → contains (delete_first xs a) b ≡ contains xs b
  unfolding contains
  contains-delete_first_other [] a b h = unfold delete_first in refl
  contains-delete_first_other (x ∷ xs) a b h = ground (
    arith,
    delete_first-cons x xs a,
    contains-delete_first_other xs a b h,
    e.beq_iff x a,
    e.beq_iff x b,
    e.beq_iff a b,
  )
