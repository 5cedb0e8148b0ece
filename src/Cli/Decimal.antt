-- ===== src/Cli/Decimal.antt =====
-- `%d` of `fmt.Sprintf`.
use task_orchestrator.Prelude.{
  ℕ, zero, suc, inl, inr, ◌/◌, ◌%◌, ◌≤◌, ◌≡◌, refl, sym, ap, ◌∙◌, true, false, String, str_append,
  arith, ltb, ◌==◌, if◌then◌else◌, Bool-cases,
}
use task_orchestrator.Prelude.Int.{ℤ, pos, negsuc}

abbrev digit : ℕ → String
digit n =
    if n == 0
    then "0"
    else if n == 1
    then "1"
    else if n == 2
    then "2"
    else if n == 3
    then "3"
    else if n == 4
    then "4"
    else if n == 5
    then "5"
    else if n == 6
    then "6"
    else if n == 7
    then "7"
    else if n == 8
    then "8"
    else "9"

-- The fuel counts divisions by ten.
unfoldable digits : ℕ → ℕ → String
digits zero n = digit n
digits (suc fuel) n = elim (ltb n 10) [
  | true ↦ digit n
  | false ↦ str_append (digits fuel (n / 10)) (digit (n % 10))
]

digits_short : (fuel n : ℕ) → ltb n 10 ≡ true → digits (suc fuel) n ≡ digit n
unfolding digits
digits_short fuel n e = rw (e, digits) refl

digits_long :
    (fuel n : ℕ)
    → ltb n 10 ≡ false
    → digits (suc fuel) n ≡ str_append (digits fuel (n / 10)) (digit (n % 10))
unfolding digits
digits_long fuel n e = rw (e, digits) refl

-- As much fuel as the number is enough: with more of it the digits are the same.
digits-enough : (fuel n : ℕ) → n ≤ fuel → digits (suc fuel) n ≡ digits fuel n
unfolding digits
digits-enough zero n h = let z : n ≡ 0 = omega arith in rw z refl
digits-enough (suc fuel) n h = elim (Bool-cases (ltb n 10)) [
  | inl e ↦ digits_short (suc fuel) n e ∙ sym (digits_short fuel n e)
  | inr e ↦
      let big : n / 10 ≤ fuel = ground arith in
      digits_long (suc fuel) n e
      ∙ ap (λ t. str_append t (digit (n % 10))) (digits-enough fuel (n / 10) big)
      ∙ sym (digits_long fuel n e)
]

unfoldable pub decimal : ℕ → String
unfolding digits
decimal n = digits n n

unfoldable pub int_string : ℤ → String
unfolding decimal
int_string (pos n) = decimal n
int_string (negsuc n) = str_append "-" (decimal (suc n))
