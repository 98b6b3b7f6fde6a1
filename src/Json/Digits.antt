-- ===== src/Json/Digits.antt =====
-- What the digits of a number are (`str(n)`).
use minima_pi_net_os.Prelude.{
  ℕ, zero, suc, ◌+◌, ◌/◌, ◌%◌, ◌≤◌, ◌≡◌, refl, Str, [], ◌∷◌, ltb, arith, Bool-cases, inl, inr,
}
use minima_pi_net_os.Json.Number.{digits, decimal}

abbrev pub AllDigits : Str → Type 0
AllDigits [] = Unit
AllDigits (c ∷ s) = (b'0' ≤ c) × (c ≤ b'9') × AllDigits s

digits-AllDigits : (fuel n : ℕ) (acc : Str) → AllDigits acc → AllDigits (digits fuel n acc)
unfolding digits
digits-AllDigits zero n acc h = h
digits-AllDigits (suc fuel) n acc h = elim (Bool-cases (ltb n 10)) [
  | inl small ↦ rw small (omega arith, ground arith, h)
  | inr large ↦
      rw large
        (digits-AllDigits fuel (n / 10) ((b'0' + n % 10) ∷ acc) (omega arith, omega arith, h))
]

-- The digits of a number are not empty.
digits-cons : (fuel n d : ℕ) (acc : Str) → (c : ℕ) × (s : Str) × (digits fuel n (d ∷ acc) ≡ c ∷ s)
unfolding digits
digits-cons zero n d acc = (d, acc, refl)
digits-cons (suc fuel) n d acc = elim (Bool-cases (ltb n 10)) [
  | inl small ↦ rw small (b'0' + n, d ∷ acc, refl)
  | inr large ↦ rw large (digits-cons fuel (n / 10) (b'0' + n % 10) (d ∷ acc))
]

-- The digits of a number: one at least.
pub decimal-cons :
    (n : ℕ) → (c : ℕ) × (s : Str) × (decimal n ≡ c ∷ s) × (b'0' ≤ c) × (c ≤ b'9') × AllDigits s
unfolding decimal digits
decimal-cons n = elim (Bool-cases (ltb n 10)) [
  | inl small ↦ rw small (b'0' + n, [], refl, omega arith, ground arith, tt)
  | inr large ↦
      let all : AllDigits (digits n (n / 10) ((b'0' + n % 10) ∷ [])) =
        digits-AllDigits n (n / 10) ((b'0' + n % 10) ∷ []) (omega arith, omega arith, tt) in
      let (c, s, same) = digits-cons n (n / 10) (b'0' + n % 10) [] in
      let h = rw same at all in rw (large, same) (c, s, refl, h.0, h.1, h.2)
]

pub decimal-AllDigits : (n : ℕ) → AllDigits (decimal n)
decimal-AllDigits n =
    let (c, s, same, low, high, more) = decimal-cons n in rw same (low, high, more)
