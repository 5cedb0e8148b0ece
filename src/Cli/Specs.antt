-- ===== src/Cli/Specs.antt =====
-- What a user means by the workers that `parseWorkers` of internal/cli/manager.go reads.
use Prim.Native.Char.{Char, code}
use text.Mathlib.TextLemmas.{nil-append, cons-append}
use task_orchestrator.Prelude.{
  ℕ, ◌+◌, ◌≡◌, refl, ap, ◌∙◌, inl, inr, Bool, true, false, List, [], ◌∷◌, In, map, String,
  str_append, str_eq, ◌==◌, arith, if◌then◌else◌, Bool-cases,
}
use task_orchestrator.Cli.{done}
use task_orchestrator.Cli.Decimal.{decimal}
use task_orchestrator.Cli.Workers.{cut, parse_worker, parse_workers_from, parse_workers}
use task_orchestrator.Manager.Setup.{WorkerMetadata}

-- A spec as a user means it: a worker with its name, or an address alone.
pub data Spec : Type 0 where
  named : String → String → Spec
  bare : String → Spec

abbrev pub written : Spec → String
written (named n a) = str_append n (str_append "=" a)
written (bare a) = a

abbrev pub has_equals : String → Bool
has_equals String.[] = false
has_equals (String.◌∷◌ c s) = if code c == b'=' then true else has_equals s

-- The name, or the address alone, has no "=", and the address is not empty.
abbrev pub IsClear : Spec → Type 0
IsClear (named n a) = (has_equals n ≡ false) × (str_eq a "" ≡ false)
IsClear (bare a) = (has_equals a ≡ false) × (str_eq a "" ≡ false)

abbrev pub meant : ℕ → Spec → WorkerMetadata
meant i (named n a) = record { name = n; address = a }
meant i (bare a) = record { name = str_append "worker-" (decimal (i + 1)); address = a }

abbrev pub meant_from : ℕ → List Spec → List WorkerMetadata
meant_from i [] = []
meant_from i (s ∷ ss) = meant i s ∷ meant_from (i + 1) ss

abbrev equals : Char
equals = "="

cut-named :
    (n a : String) → has_equals n ≡ false → cut (str_append n (str_append "=" a)) ≡ (n, a, true)
unfolding cut
cut-named String.[] a h = ap cut (
    nil-append (str_append "=" a) ∙ cons-append equals "" a ∙ ap (String.◌∷◌ equals) (nil-append a))
cut-named (String.◌∷◌ c s) a h = elim (Bool-cases (code c == b'=')) [
  | inl e ↦ absurd (ground arith)
  | inr e ↦
      let rest = cut-named s a (ground arith) in
      ap cut (cons-append c s (str_append "=" a)) ∙ (rw (e, rest) refl)
]

cut-bare : (a : String) → has_equals a ≡ false → (cut a).2 ≡ false
unfolding cut
cut-bare String.[] h = refl
cut-bare (String.◌∷◌ c s) h = elim (Bool-cases (code c == b'=')) [
  | inl e ↦ absurd (ground arith)
  | inr e ↦ rw e (cut-bare s (ground arith))
]

parse_worker-written :
    (i : ℕ) (s : Spec) → IsClear s → parse_worker i (written s) ≡ done (meant i s)
unfolding parse_worker
parse_worker-written i (named n a) (h, k) = rw (cut-named n a h, k) refl
parse_worker-written i (bare a) (h, k) = rw (cut-bare a h, k) refl

parse_workers_from-written :
    (i : ℕ) (ss : List Spec)
    → ((s : Spec) → In s ss → IsClear s)
    → parse_workers_from i (map written ss) ≡ done (meant_from i ss)
unfolding parse_workers_from
parse_workers_from-written i [] h = refl
parse_workers_from-written i (s ∷ ss) h =
    rw
      (
        parse_worker-written i s (h s (inl refl)),
        parse_workers_from-written (i + 1) ss (λ t m. h t (inr m)),
      )
      refl

-- Specs with a name and an address, or an address alone, whose address is not empty and whose name,
-- or address alone, has no "=": the manager gets exactly these workers in their order, the nameless
-- ones named worker-1, worker-2, … by their position.
pub parse_workers-written :
    (ss : List Spec)
    → ((s : Spec) → In s ss → IsClear s)
    → parse_workers (map written ss) ≡ done (meant_from 0 ss)
unfolding parse_workers
parse_workers-written ss h = parse_workers_from-written 0 ss h
