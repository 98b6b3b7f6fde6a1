-- ===== src/Prelude/Text.antt =====
-- The methods of Python's `str` that the backend uses, on texts as lists of code points.
use Prim.Native.Nat.{ℕ, zero, suc, ◌+◌, ◌-◌}
use mathlib.Core.Bool.{Bool, true, false, ◌&&◌, ◌||◌}
use mathlib.Core.List.{List, [], ◌∷◌, ◌++◌}
use mathlib.Core.Path.{◌≡◌, refl}
use mathlib.Core.Logic.{inl, inr}
use native.Mathlib.Omega.{arith}
use minima_pi_net_os.Prelude.Tests.{leb, Bool-cases, if◌then◌else◌}
use minima_pi_net_os.Prelude.Lists.{length}
use minima_pi_net_os.Prelude.Eq.{Str, ◌==◌, nat_eq}

-- `s.startswith(p)`
unfoldable pub starts_with : Str → Str → Bool
starts_with [] s = true
starts_with (c ∷ p) [] = false
starts_with (c ∷ p) (d ∷ s) = (c == d) && starts_with p s

-- `p in s`
unfoldable pub contains : Str → Str → Bool
unfolding starts_with
contains p [] = starts_with p []
contains p (c ∷ s) = starts_with p (c ∷ s) || contains p s

-- `s.lower()` of a text in ASCII
unfoldable pub lower : Str → Str
lower [] = []
lower (c ∷ s) = (if leb b'A' c && leb c b'Z' then c + 32 else c) ∷ lower s

-- `s.upper()` of a text in ASCII
unfoldable pub upper : Str → Str
upper [] = []
upper (c ∷ s) = (if leb b'a' c && leb c b'z' then c - 32 else c) ∷ upper s

abbrev pub is_space : ℕ → Bool
is_space c = c == 32 || leb 9 c && leb c 13 || leb 28 c && leb c 31

-- `s.lstrip()` and `s.rstrip()` of a text in ASCII
unfoldable pub lstrip : Str → Str
lstrip [] = []
lstrip (c ∷ s) = let rest = lstrip s in if is_space c then rest else c ∷ s

unfoldable pub rstrip : Str → Str
rstrip [] = []
rstrip (c ∷ s) = elim (rstrip s) [ [] ↦ if is_space c then [] else c ∷ [] | d ∷ t ↦ c ∷ d ∷ t ]

-- `s.replace(old, new)`, where `old` is not empty: `skip` is what is left of an occurrence.
unfoldable pub replace_from : Str → Str → ℕ → Str → Str
replace_from old new skip [] = []
replace_from old new (suc skip) (c ∷ s) = replace_from old new skip s
replace_from old new zero (c ∷ s) =
    let found = new ++ replace_from old new (length old - 1) s in
    let other = c ∷ replace_from old new 0 s in if starts_with old (c ∷ s) then found else other

abbrev pub replace : Str → Str → Str → Str
replace old new s = replace_from old new 0 s

-- `s.split(sep)` by one character: `acc` is the part that has begun, from its end.
unfoldable pub split_from : ℕ → Str → Str → List Str
split_from sep acc [] = acc ∷ []
split_from sep acc (c ∷ s) =
    let ends = acc ∷ split_from sep [] s in
    let goes_on = split_from sep (acc ++ c ∷ []) s in if c == sep then ends else goes_on

abbrev pub split : ℕ → Str → List Str
split sep s = split_from sep [] s

-- `s.lstrip(c)` for one character
unfoldable pub lstrip_char : ℕ → Str → Str
lstrip_char d [] = []
lstrip_char d (c ∷ s) = let rest = lstrip_char d s in if c == d then rest else c ∷ s

-- `[a-zA-Z0-9]`
abbrev pub is_alnum : ℕ → Bool
is_alnum c = leb b'a' c && leb c b'z' || leb b'A' c && leb c b'Z' || leb b'0' c && leb c b'9'

-- `$` of a pattern stands at the end, and before a newline there.
unfoldable pub without_newline : Str → Str
without_newline [] = []
without_newline (c ∷ []) = if c == b'\n' then [] else c ∷ []
without_newline (c ∷ d ∷ s) = c ∷ without_newline (d ∷ s)

pub starts_with_self : (p s : Str) → starts_with p (p ++ s) ≡ true
unfolding starts_with
starts_with_self [] s = refl
starts_with_self (c ∷ p) s = ground (arith, starts_with_self p s)

pub contains_self : (p s : Str) → contains p (p ++ s) ≡ true
unfolding contains starts_with
contains_self [] [] = refl
contains_self [] (c ∷ s) = refl
contains_self (c ∷ p) s = ground (arith, starts_with_self p s)

-- A text that has the old one has the new one afterwards.
pub contains-replace :
    (o : ℕ) (old new s : Str)
    → contains (o ∷ old) s ≡ true
    → contains new (replace (o ∷ old) new s) ≡ true
unfolding contains replace_from starts_with
contains-replace o old new [] h = absurd (cc)
contains-replace o old new (c ∷ s) h = elim (Bool-cases (starts_with (o ∷ old) (c ∷ s))) [
  | inl here ↦ rw here (contains_self new (replace_from (o ∷ old) new (suc (length old) - 1) s))
  | inr later ↦
      let tail : contains (o ∷ old) s ≡ true = rw later at h in
      let step : contains new (replace (o ∷ old) new s) ≡ true =
        contains-replace o old new s tail in
      rw later (ground arith)
]
