-- ===== src/Json/Number.antt =====
-- `str(n)` of a number in decimal.
use minima_pi_net_os.Prelude.{
  ℕ, zero, suc, ◌+◌, ◌-◌, ◌*◌, ◌/◌, ◌%◌, ◌<◌, ◌≡◌, ap, ◌∙◌, Str, [], ◌∷◌, arith, ltb, Bool-cases,
  inl, inr, if◌then◌else◌,
}

-- The digits of `n` in front of `acc`. One step a digit: `n + 1` steps are enough.
unfoldable pub digits : ℕ → ℕ → Str → Str
digits zero n acc = acc
digits (suc fuel) n acc =
    let rest = digits fuel (n / 10) ((b'0' + n % 10) ∷ acc) in
    if ltb n 10 then (b'0' + n) ∷ acc else rest

unfoldable pub decimal : ℕ → Str
unfolding digits
decimal n = digits (suc n) n []

-- The number that a text of digits stands for, read from the left.
unfoldable pub number_from : ℕ → Str → ℕ
number_from n [] = n
number_from n (c ∷ s) = number_from (n * 10 + (c - b'0')) s

number_from-digits :
    (fuel n : ℕ) (acc : Str) → n < fuel → number_from 0 (digits fuel n acc) ≡ number_from n acc
unfolding digits number_from
number_from-digits zero n acc h = elim h [ ]
number_from-digits (suc fuel) n acc h = elim (Bool-cases (ltb n 10)) [
  | inl small ↦ rw small (ap (λ k. number_from k acc) (omega arith))
  | inr large ↦ rw large (
      number_from-digits fuel (n / 10) ((b'0' + n % 10) ∷ acc) (ground arith)
      ∙ ap (λ k. number_from k acc) (omega arith))
]

-- The text of a number reads back as the number.
pub number_from-decimal : (n : ℕ) → number_from 0 (decimal n) ≡ n
unfolding decimal number_from
number_from-decimal n = number_from-digits (suc n) n [] (omega arith)
