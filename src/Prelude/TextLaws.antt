-- ===== src/Prelude/TextLaws.antt =====
-- Laws of the methods of `str`: what stripping leaves alone, and how splitting and joining meet.
use Prim.Native.Nat.{ℕ, ◌≤◌}
use mathlib.Core.Bool.{false}
use mathlib.Core.List.{List, [], ◌∷◌, ◌++◌, append-nil, append_assoc}
use mathlib.Core.Path.{◌≡◌, refl, sym, ap, ◌∙◌}
use mathlib.Core.Logic.{inl, inr}
use native.Mathlib.Omega.{arith}
use minima_pi_net_os.Prelude.Tests.{Bool-cases}
use minima_pi_net_os.Prelude.Eq.{Str, ◌==◌, beq_iff, nat_eq}
use minima_pi_net_os.Prelude.Text.{is_space, lstrip, rstrip, split, split_from}

-- No character is a space.
abbrev pub AllSolid : Str → Type 0
AllSolid [] = Unit
AllSolid (c ∷ s) = (33 ≤ c) × AllSolid s

pub rstrip_solid : (s : Str) → AllSolid s → rstrip s ≡ s
unfolding rstrip
rstrip_solid [] h = refl
rstrip_solid (c ∷ []) h =
    let solid : is_space c ≡ false = ground (arith, beq_iff c 32) in rw solid refl
rstrip_solid (c ∷ d ∷ s) h = rw (rstrip_solid (d ∷ s) h.1) refl

pub lstrip_solid : (s : Str) → AllSolid s → lstrip s ≡ s
unfolding lstrip
lstrip_solid [] h = refl
lstrip_solid (c ∷ s) h =
    let solid : is_space c ≡ false = ground (arith, beq_iff c 32) in rw solid refl

-- The character does not occur.
abbrev pub AllNot : ℕ → Str → Type 0
AllNot d [] = Unit
AllNot d (c ∷ s) = ((c == d) ≡ false) × AllNot d s

pub split_from-AllNot :
    (d : ℕ) (acc s t : Str) → AllNot d s → split_from d acc (s ++ t) ≡ split_from d (acc ++ s) t
unfolding split_from
split_from-AllNot d acc [] t h = rw (append-nil acc) refl
split_from-AllNot d acc (c ∷ s) t h = rw h.0 (
    split_from-AllNot d (acc ++ c ∷ []) s t h.1
    ∙ ap (λ u. split_from d u t) (append_assoc acc (c ∷ []) s))

-- A part ends at the character.
pub split-part : (d : ℕ) (s t : Str) → AllNot d s → split d (s ++ d ∷ t) ≡ s ∷ split d t
unfolding split_from
split-part d s t h = split_from-AllNot d [] s (d ∷ t) h ∙ (rw ((beq_iff d d).1 refl) refl)

pub split-whole : (d : ℕ) (s : Str) → AllNot d s → split d s ≡ s ∷ []
unfolding split_from
split-whole d s h = ap (split d) (sym (append-nil s)) ∙ split_from-AllNot d [] s [] h

-- `sep.join(parts)`
unfoldable pub join : ℕ → List Str → Str
join d [] = []
join d (p ∷ []) = p
join d (p ∷ q ∷ ps) = p ++ d ∷ join d (q ∷ ps)

-- There is a part always.
split_from-cons :
    (d : ℕ) (acc s : Str) → (p : Str) × (ps : List Str) × (split_from d acc s ≡ p ∷ ps)
unfolding split_from
split_from-cons d acc [] = (acc, [], refl)
split_from-cons d acc (c ∷ s) = elim (Bool-cases (c == d)) [
  | inl ends ↦ rw ends (acc, split_from d [] s, refl)
  | inr goes_on ↦ rw goes_on (split_from-cons d (acc ++ c ∷ []) s)
]

join_cons :
    (d : ℕ) (p acc s : Str) → join d (p ∷ split_from d acc s) ≡ p ++ d ∷ join d (split_from d acc s)
unfolding join
join_cons d p acc s = let (q, ps, same) = split_from-cons d acc s in rw same refl

join-split_from : (d : ℕ) (acc s : Str) → join d (split_from d acc s) ≡ acc ++ s
unfolding join split_from
join-split_from d acc [] = sym (append-nil acc)
join-split_from d acc (c ∷ s) = elim (Bool-cases (c == d)) [
  | inl ends ↦ rw ends (
      join_cons d acc [] s
      ∙ ap (λ t. acc ++ d ∷ t) (join-split_from d [] s)
      ∙ ap (λ e. acc ++ e ∷ s) (sym ((beq_iff c d).0 ends)))
  | inr goes_on ↦ rw goes_on (join-split_from d (acc ++ c ∷ []) s ∙ append_assoc acc (c ∷ []) s)
]

-- Splitting loses nothing.
pub join-split : (d : ℕ) (s : Str) → join d (split d s) ≡ s
join-split d s = join-split_from d [] s
