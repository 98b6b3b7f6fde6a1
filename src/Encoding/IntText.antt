-- ===== src/Encoding/IntText.antt =====
-- `int(text)` in base ten, on a text in ASCII: spaces around it, a sign, and single underscores
-- between the digits are let through.
use minima_pi_net_os.Prelude.{
  nat_eq, ℕ, zero, suc, ◌+◌, ◌-◌, ◌*◌, ◌≡◌, refl, sym, ap, ◌∙◌, Str, Bool, true, false, ◌&&◌,
  Option, none, some, [], ◌∷◌, arith, leb, ◌==◌, beq_iff,
}
use minima_pi_net_os.Prelude.Int.{ℤ, pos, negsuc}
use minima_pi_net_os.Prelude.Text.{lstrip, rstrip}
use minima_pi_net_os.Prelude.TextLaws.{AllSolid, lstrip_solid, rstrip_solid}
use minima_pi_net_os.Json.Digits.{AllDigits, decimal-cons, decimal-AllDigits}
use minima_pi_net_os.Json.Number.{decimal, number_from, number_from-decimal}

abbrev is_digit : ℕ → Bool
is_digit c = leb b'0' c && leb c b'9'

unfoldable mutual
  -- A digit has to come.
  pub digits_from : ℕ → Str → Option ℕ
  digits_from n [] = none
  digits_from n (c ∷ s) = elim (is_digit c) [
    | true ↦ more_from (n * 10 + (c - b'0')) s
    | false ↦ none
  ]

  -- A digit may come, or an underscore with a digit behind it.
  pub more_from : ℕ → Str → Option ℕ
  more_from n [] = some n
  more_from n (c ∷ s) = elim (c == b'_') [
    | true ↦ digits_from n s
    | false ↦ elim (is_digit c) [ true ↦ more_from (n * 10 + (c - b'0')) s | false ↦ none ]
  ]

abbrev negated : ℕ → ℤ
negated zero = pos zero
negated (suc n) = negsuc n

abbrev map_option : (ℕ → ℤ) → Option ℕ → Option ℤ
map_option f none = none
map_option f (some n) = some (f n)

unfoldable pub signed : Str → Option ℤ
signed [] = none
signed (c ∷ s) = elim (c == b'-') [
  | true ↦ map_option negated (digits_from 0 s)
  | false ↦ elim (c == b'+') [
    | true ↦ map_option pos (digits_from 0 s)
    | false ↦ map_option pos (digits_from 0 (c ∷ s))
  ]
]

-- `none` is the `ValueError`.
unfoldable pub int_of : Str → Option ℤ
unfolding signed
int_of text = signed (rstrip (lstrip text))

more_from-AllDigits : (n : ℕ) (s : Str) → AllDigits s → more_from n s ≡ some (number_from n s)
unfolding more_from number_from
more_from-AllDigits n [] h = refl
more_from-AllDigits n (c ∷ s) h =
    let other : (c == b'_') ≡ false = ground (arith, beq_iff c b'_') in
    let digit : is_digit c ≡ true = ground arith in
    rw (other, digit, more_from) (more_from-AllDigits (n * 10 + (c - b'0')) s h.2)

AllDigits-AllSolid : (s : Str) → AllDigits s → AllSolid s
AllDigits-AllSolid [] h = tt
AllDigits-AllSolid (c ∷ s) h = (omega (arith, h.0), AllDigits-AllSolid s h.2)

signed-digits :
    (c : ℕ) (s : Str) → AllDigits (c ∷ s) → signed (c ∷ s) ≡ some (pos (number_from 0 (c ∷ s)))
unfolding signed digits_from number_from
signed-digits c s h =
    let plus : (c == b'+') ≡ false = ground (arith, beq_iff c b'+') in
    let minus : (c == b'-') ≡ false = ground (arith, beq_iff c b'-') in
    let digit : is_digit c ≡ true = ground arith in
    rw (minus, plus, digit, signed, digits_from)
      (ap (map_option pos) (more_from-AllDigits (0 * 10 + (c - b'0')) s h.2))

-- The text of a number is read as the number.
pub int_of-decimal : (n : ℕ) → int_of (decimal n) ≡ some (pos n)
unfolding int_of
int_of-decimal n =
    let solid = AllDigits-AllSolid (decimal n) (decimal-AllDigits n) in
    let (c, s, same, low, high, more) = decimal-cons n in
    let read : signed (c ∷ s) ≡ some (pos (number_from 0 (c ∷ s))) =
      signed-digits c s (low, high, more) in
    ap (λ t. signed (rstrip t)) (lstrip_solid (decimal n) solid)
    ∙ ap signed (rstrip_solid (decimal n) solid ∙ same)
    ∙ read
    ∙ ap (λ t. some (pos (number_from 0 t))) (sym same)
    ∙ ap (λ k. some (pos k)) (number_from-decimal n)
