-- ===== src/Files/Below.antt =====
-- Where the paths lead that backend/routes/files.py lets through.
use minima_pi_net_os.Prelude.{
  str_eq, nat_eq, ℕ, ◌≡◌, ◌≢◌, refl, sym, ◌∙◌, subst, Str, codes, Bool, true, false, ◌||◌, List, [],
  ◌∷◌, ◌++◌, keep, any, Result, ok, raise, http, bind-ok, ok-injective, arith, beq_iff, ◌==◌,
  Bool-cases, inl, inr, if◌then◌else◌,
}
use minima_pi_net_os.Prelude.Text.{starts_with, split, split_from}
use minima_pi_net_os.Files.{
  FileSystem, normalized, is_part, is_parent, safe_relative_parts, link_on_way, escapes, resolved,
  safe_resolve, same_path, safe_resolve_delete,
}

-- A part that names an entry of the directory that it stands in.
abbrev pub IsPlain : Str → Type 0
IsPlain p = (p ≢ []) × (p ≢ codes ".") × (p ≢ codes "..") × (any (λ c. c == b'/') p ≡ false)

abbrev pub AllPlain : List Str → Type 0
AllPlain [] = Unit
AllPlain (p ∷ ps) = IsPlain p × AllPlain ps

-- No part of a text split at slashes has a slash.
abbrev AllWhole : List Str → Type 0
AllWhole [] = Unit
AllWhole (p ∷ ps) = (any (λ c. c == b'/') p ≡ false) × AllWhole ps

any-append :
    (p : ℕ → Bool) (s : Str) (c : ℕ) → any p s ≡ false → p c ≡ false → any p (s ++ c ∷ []) ≡ false
unfolding any
any-append p [] c h k = ground arith
any-append p (d ∷ s) c h k = ground (arith, any-append p s c)

split_from-AllWhole :
    (acc s : Str) → any (λ c. c == b'/') acc ≡ false → AllWhole (split_from b'/' acc s)
unfolding split_from
split_from-AllWhole acc [] h = (h, tt)
split_from-AllWhole acc (c ∷ s) h = elim (Bool-cases (c == b'/')) [
  | inl ends ↦ rw ends (h, split_from-AllWhole [] s (unfold any in refl))
  | inr goes_on ↦
      rw goes_on
        (split_from-AllWhole (acc ++ c ∷ []) s (any-append (λ d. d == b'/') acc c h goes_on))
]

keep-AllPlain :
    (ps : List Str)
    → AllWhole ps
    → any is_parent (keep is_part ps) ≡ false
    → AllPlain (keep is_part ps)
unfolding keep any
keep-AllPlain [] whole no_parent = tt
keep-AllPlain (p ∷ ps) whole no_parent = elim (Bool-cases (is_part p)) [
  | inl part ↦
      let free : (is_parent p || any is_parent (keep is_part ps)) ≡ false = rw part at no_parent in
      rw part (
        (
          ground (arith, beq_iff p []),
          ground (arith, beq_iff p (codes ".")),
          ground (arith, beq_iff p (codes "..")),
          whole.0,
        ),
        keep-AllPlain ps whole.1 (ground arith),
      )
  | inr dropped ↦ rw dropped (keep-AllPlain ps whole.1 (rw dropped at no_parent))
]

safe_relative_parts-AllPlain :
    (requested : Str) (parts : List Str) → safe_relative_parts requested ≡ ok parts → AllPlain parts
unfolding safe_relative_parts
safe_relative_parts-AllPlain requested parts h =
    let path = normalized requested in
    let ps = keep is_part (split b'/' path) in
    elim (Bool-cases (starts_with (codes "/") path)) [
      | inl absolute ↦ absurd (
          let clash : Path (Result (List Str)) (raise (http 403)) (ok parts) = rw absolute at h in
          cc)
      | inr relative ↦ elim (Bool-cases (any is_parent ps)) [
        | inl climbs ↦ absurd (
            let clash : Path (Result (List Str)) (raise (http 403)) (ok parts) =
              rw (relative, climbs) at h in
            cc)
        | inr stays ↦
            let same : ps ≡ parts = ok-injective (rw (relative, stays) at h) in
            subst AllPlain same (
              keep-AllPlain (split b'/' path) (split_from-AllWhole [] path (unfold any in refl))
                stays)
      ]
    ]

module _ (fs : FileSystem) (root : List Str) where
  resolved-ok :
      (parts p : List Str)
      → resolved fs root parts ≡ ok p
      → (p ≡ root ++ parts)
        × (link_on_way fs root parts ≡ false)
        × (escapes fs root (root ++ parts) ≡ false)
  unfolding resolved
  resolved-ok parts p h = by_tests (link_on_way fs root parts) (escapes fs root (root ++ parts)) h
    where
      by_tests :
          (link out : Bool)
          → Path
              (Result (List Str))
              (if link
                then raise (http 403)
                else if out
                then raise (http 403)
                else ok (root ++ parts))
              (ok p)
          → (p ≡ root ++ parts) × (link ≡ false) × (out ≡ false)
      by_tests true out h = absurd (cc)
      by_tests false true h = absurd (cc)
      by_tests false false h = (sym (ok-injective h), refl, refl)

  pub safe_resolve-below :
      (requested : Str) (p : List Str)
      → safe_resolve fs root requested ≡ ok p
      → (parts : List Str) × (p ≡ root ++ parts)
        × AllPlain parts
        × (link_on_way fs root parts ≡ false)
        × (escapes fs root p ≡ false)
  unfolding safe_resolve
  safe_resolve-below requested p h =
      let (parts, split_well, through) =
        bind-ok (safe_relative_parts requested) (resolved fs root) h in
      let (same, no_link, no_escape) = resolved-ok parts p through in
      (
        parts,
        same,
        safe_relative_parts-AllPlain requested parts split_well,
        no_link,
        rw same no_escape,
      )

  same_path_refl : (p : List Str) → same_path p p ≡ true
  unfolding same_path
  same_path_refl [] = refl
  same_path_refl (a ∷ p) = ground (arith, beq_iff a a, same_path_refl p)

  -- The root itself is never let through for a deletion, and what is let through is what
  -- `_safe_resolve` lets through.
  pub safe_resolve_delete-ne :
      (requested : Str) (p : List Str)
      → safe_resolve_delete fs root requested ≡ ok p
      → (p ≢ root) × (safe_resolve fs root requested ≡ ok p)
  unfolding safe_resolve_delete
  safe_resolve_delete-ne requested p h =
      let (q, through, kept) =
        bind-ok (safe_resolve fs root requested)
          (λ q. if same_path q root then raise (http 403) else ok q) h in
      elim (Bool-cases (same_path q root)) [
        | inl is_root ↦ absurd (
            let clash : Path (Result (List Str)) (raise (http 403)) (ok p) = rw is_root at kept in
            cc)
        | inr other ↦
            let same : q ≡ p = ok-injective (rw other at kept) in
            (
              λ at_root. absurd (
                  let here : same_path root root ≡ false =
                    subst (λ x. same_path x root ≡ false) (same ∙ at_root) other in
                  let there = same_path_refl root in cc),
              subst (λ x. safe_resolve fs root requested ≡ ok x) same through,
            )
      ]

  -- A path whose parts are accepted, with no symbolic link on its way, is let through where it does
  -- not exist: a symbolic link whose target is not there counts as missing, wherever it leads.
  pub safe_resolve-missing :
      (requested : Str) (parts : List Str)
      → safe_relative_parts requested ≡ ok parts
      → link_on_way fs root parts ≡ false
      → fs.exists (root ++ parts) ≡ false
      → safe_resolve fs root requested ≡ ok (root ++ parts)
  unfolding safe_resolve resolved
  safe_resolve-missing requested parts good no_link missing = rw (good, no_link, missing) refl
