-- ===== src/Updater/Version.antt =====
-- Versions as backend/cpip_updater.py reads and compares them.
use minima_pi_net_os.Prelude.{
  nat_eq, ℕ, ◌≤◌, ◌≡◌, refl, sym, ap, ◌∙◌, Str, true, false, List, [], ◌∷◌, ◌++◌, append-nil, keep,
  arith, beq_iff, ◌==◌,
}
use minima_pi_net_os.Prelude.Text.{lstrip_char, split, split_from}
use minima_pi_net_os.Prelude.TextLaws.{
  AllSolid, rstrip_solid, lstrip_solid, AllNot, split-part, split-whole,
}
use minima_pi_net_os.Json.Digits.{AllDigits, decimal-cons, decimal-AllDigits}
use minima_pi_net_os.Json.Number.{decimal, number_from, number_from-decimal}
use minima_pi_net_os.Updater.{is_digit, numbers_of, parse_version, version_lt}

-- The text of a version that is not empty: its numbers with dots between them.
unfoldable pub dotted : ℕ → List ℕ → Str
dotted n [] = decimal n
dotted n (m ∷ ns) = decimal n ++ b'.' ∷ dotted m ns

keep_digits : (s : Str) → AllDigits s → keep is_digit s ≡ s
unfolding keep
keep_digits [] h = refl
keep_digits (c ∷ s) h =
    let digit : is_digit c ≡ true = ground arith in rw digit (ap (λ t. c ∷ t) (keep_digits s h.2))

-- The characters of a version's text, none of which is a space.
abbrev AllPlain : Str → Type 0
AllPlain [] = Unit
AllPlain (c ∷ s) = (b'.' ≤ c) × (c ≤ b'9') × AllPlain s

AllDigits-AllPlain : (s t : Str) → AllDigits s → AllPlain t → AllPlain (s ++ t)
AllDigits-AllPlain [] t h k = k
AllDigits-AllPlain (c ∷ s) t h k = (omega (arith, h.0), h.1, AllDigits-AllPlain s t h.2 k)

dotted-AllPlain : (n : ℕ) (ns : List ℕ) → AllPlain (dotted n ns)
unfolding dotted
dotted-AllPlain n [] =
    rw (sym (append-nil (decimal n))) (AllDigits-AllPlain (decimal n) [] (decimal-AllDigits n) tt)
dotted-AllPlain n (m ∷ ns) =
    AllDigits-AllPlain (decimal n) (b'.' ∷ dotted m ns) (decimal-AllDigits n)
      (omega arith, omega arith, dotted-AllPlain m ns)

AllPlain-AllSolid : (s : Str) → AllPlain s → AllSolid s
AllPlain-AllSolid [] h = tt
AllPlain-AllSolid (c ∷ s) h = (omega (arith, h.0), AllPlain-AllSolid s h.2)

pub lstrip_char-plain : (s : Str) → AllPlain s → lstrip_char b'v' s ≡ s
unfolding lstrip_char
lstrip_char-plain [] h = refl
lstrip_char-plain (c ∷ s) h =
    let other : (c == b'v') ≡ false = ground (arith, beq_iff c b'v') in rw other refl

AllDigits-AllNot : (s : Str) → AllDigits s → AllNot b'.' s
AllDigits-AllNot [] h = tt
AllDigits-AllNot (c ∷ s) h = (ground (arith, beq_iff c b'.'), AllDigits-AllNot s h.2)

parts : ℕ → List ℕ → List Str
parts n [] = decimal n ∷ []
parts n (m ∷ ns) = decimal n ∷ parts m ns

split-dotted : (n : ℕ) (ns : List ℕ) → split b'.' (dotted n ns) ≡ parts n ns
unfolding dotted split_from parts
split-dotted n [] =
    split-whole b'.' (decimal n) (AllDigits-AllNot (decimal n) (decimal-AllDigits n))
split-dotted n (m ∷ ns) =
    split-part b'.' (decimal n) (dotted m ns) (AllDigits-AllNot (decimal n) (decimal-AllDigits n))
    ∙ ap (λ ps. decimal n ∷ ps) (split-dotted m ns)

numbers_of-digits : (n : ℕ) (ps : List Str) → numbers_of (decimal n ∷ ps) ≡ n ∷ numbers_of ps
unfolding numbers_of
numbers_of-digits n ps =
    let (c, s, same, low, high, more) = decimal-cons n in
    let kept : keep is_digit (decimal n) ≡ c ∷ s =
      keep_digits (decimal n) (decimal-AllDigits n) ∙ same in
    let value : number_from 0 (c ∷ s) ≡ n = ap (number_from 0) (sym same) ∙ number_from-decimal n in
    rw (kept, numbers_of, value) refl

numbers_of-parts : (n : ℕ) (ns : List ℕ) → numbers_of (parts n ns) ≡ n ∷ ns
unfolding parts numbers_of
numbers_of-parts n [] = numbers_of-digits n []
numbers_of-parts n (m ∷ ns) =
    numbers_of-digits n (parts m ns) ∙ ap (λ ms. n ∷ ms) (numbers_of-parts m ns)

-- The text of a version, with or without a leading `v`, is read back as its numbers.
pub parse_version-dotted :
    (n : ℕ) (ns : List ℕ)
    → (parse_version (dotted n ns) ≡ n ∷ ns) × (lstrip_char b'v' (b'v' ∷ dotted n ns) ≡ dotted n ns)
unfolding parse_version
parse_version-dotted n ns =
    let plain = dotted-AllPlain n ns in
    (
      rw
          (
            lstrip_solid (dotted n ns) (AllPlain-AllSolid (dotted n ns) plain),
            rstrip_solid (dotted n ns) (AllPlain-AllSolid (dotted n ns) plain),
            lstrip_char-plain (dotted n ns) plain,
            split-dotted n ns,
          )
          (numbers_of-parts n ns),
      unfold lstrip_char in lstrip_char-plain (dotted n ns) plain,
    )

-- Of two versions at most one is newer than the other, and none where they are the same.
pub version_lt-asym : (a b : List ℕ) → version_lt a b ≡ true → version_lt b a ≡ false
unfolding version_lt
version_lt-asym [] [] h = absurd (cc)
version_lt-asym [] (b ∷ w) h = refl
version_lt-asym (a ∷ v) [] h = absurd (cc)
version_lt-asym (a ∷ v) (b ∷ w) h = ground (arith, beq_iff a b, beq_iff b a, version_lt-asym v w)

pub lstrip_char-dotted : (n : ℕ) (ns : List ℕ) → lstrip_char b'v' (dotted n ns) ≡ dotted n ns
lstrip_char-dotted n ns = lstrip_char-plain (dotted n ns) (dotted-AllPlain n ns)

AllPlain-AllNot : (s : Str) → AllPlain s → AllNot b'"' s
AllPlain-AllNot [] h = tt
AllPlain-AllNot (c ∷ s) h = (ground (arith, beq_iff c b'"', h.0), AllPlain-AllNot s h.2)

-- A version has no quotation mark.
pub dotted-AllNot : (n : ℕ) (ns : List ℕ) → AllNot b'"' (dotted n ns)
dotted-AllNot n ns = AllPlain-AllNot (dotted n ns) (dotted-AllPlain n ns)
