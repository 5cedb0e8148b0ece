-- ===== src/Prelude/Places.antt =====
-- The places of a list of fixed length, which goroutines write.
use Prim.Native.Nat.{ℕ, zero, suc, ◌<◌}
use mathlib.Core.Path.{◌≡◌, refl, ap}
use mathlib.Core.List.{List, [], ◌∷◌, map}
use mathlib.Core.Option.{none, some}
use native.Mathlib.Omega.{arith}
use task_orchestrator.Prelude.Lists.{length, get_elem?, set, replicate}
use task_orchestrator.Prelude.Tests.{◌==◌, if◌then◌else◌}

pub length-set {ℓ} : {A : Type ℓ} (xs : List A) (i : ℕ) (v : A) → length (set xs i v) ≡ length xs
length-set [] i v = refl
length-set (x ∷ xs) zero v = refl
length-set (x ∷ xs) (suc i) v = ap suc (length-set xs i v)

-- A write shows at its own place, if that is in range, and nowhere else.
pub get_elem?-set {ℓ} :
    {A : Type ℓ} (xs : List A) (i j : ℕ) (v : A)
    → get_elem? (set xs j v) i
      ≡ elim (get_elem? xs i) [ none ↦ none | some x ↦ some (if j == i then v else x) ]
get_elem?-set [] i j v = refl
get_elem?-set (x ∷ xs) zero zero v = refl
get_elem?-set (x ∷ xs) zero (suc j) v = ground arith
get_elem?-set (x ∷ xs) (suc i) zero v = ground arith
get_elem?-set (x ∷ xs) (suc i) (suc j) v = ground (arith, get_elem?-set xs i j v)

pub get_elem?-replicate {ℓ} :
    {A : Type ℓ} (n i : ℕ) (v : A) → i < n → get_elem? (replicate n v) i ≡ some v
get_elem?-replicate zero i v h = elim h [ ]
get_elem?-replicate (suc n) zero v h = refl
get_elem?-replicate (suc n) (suc i) v h = get_elem?-replicate n i v (omega arith)

pub get_elem?-lt {ℓ} :
    {A : Type ℓ} (xs : List A) (i : ℕ) {x : A} → get_elem? xs i ≡ some x → i < length xs
get_elem?-lt [] i h = cc
get_elem?-lt (x ∷ xs) zero h = omega arith
get_elem?-lt (x ∷ xs) (suc i) h = omega (arith, get_elem?-lt xs i h)

pub length-replicate {ℓ} : {A : Type ℓ} (n : ℕ) (v : A) → length (replicate n v) ≡ n
length-replicate zero v = refl
length-replicate (suc n) v = ap suc (length-replicate n v)

-- Two lists of one length that hold the same at each place are equal.
pub map-ext {ℓ κ} :
    {A : Type ℓ} {B : Type κ} (f : A → B) (xs : List A) (ys : List B)
    → length ys ≡ length xs
    → ((i : ℕ) (x : A) → get_elem? xs i ≡ some x → get_elem? ys i ≡ some (f x))
    → ys ≡ map f xs
map-ext f [] [] e h = refl
map-ext f [] (y ∷ ys) e h = absurd (omega arith)
map-ext f (x ∷ xs) [] e h = absurd (omega arith)
map-ext f (x ∷ xs) (y ∷ ys) e h =
    let head : y ≡ f x = cc (h 0 x refl) in
    let tail : ys ≡ map f xs = map-ext f xs ys (omega arith) (λ i z g. h (suc i) z g) in cc
