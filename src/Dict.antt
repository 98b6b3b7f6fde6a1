-- ===== src/Dict.antt =====
-- Python's `dict`: insertion order, one entry for a key. A write to a key that is there keeps its
-- place, and a write to a new key goes to the end.
pub mod Distinct
pub mod Change
pub mod Rebuild
pub mod Elements
use minima_pi_net_os.Prelude.{
  suc, ◌≤◌, ◌<◌, ◌≡◌, refl, subst, inl, inr, Bool, true, false, Option, none, some, List, [], ◌∷◌,
  ◌++◌, map, length, arith, Equality, ◌==◌, beq_iff, Bool-cases, if◌then◌else◌,
}

abbrev pub Dict {ℓ κ} : Type ℓ → Type κ → Type (ℓ ⊔ κ)
Dict K V = List (K × V)

module _ {ℓ κ} {K : Type ℓ} {V : Type κ} where
  abbrev pub values : Dict K V → List V
  values = map (λ e. e.1)

  abbrev pub keys : Dict K V → List K
  keys = map (λ e. e.0)

abbrev pub is_some {ℓ} : {A : Type ℓ} → Option A → Bool
is_some none = false
is_some (some a) = true

module _ {ℓ κ} {K : Type ℓ} {V : Type κ} ⦃e : Equality K⦄ where
  -- `d.get(k)`
  unfoldable pub get : K → Dict K V → Option V
  get k [] = none
  get k ((j, v) ∷ d) = if j == k then some v else get k d

  -- `d[k] = v`
  unfoldable pub put : K → V → Dict K V → Dict K V
  put k v [] = (k, v) ∷ []
  put k v ((j, w) ∷ d) = let rest = put k v d in if j == k then (j, v) ∷ d else (j, w) ∷ rest

  -- `del d[k]`, `d.pop(k, None)`: there is one entry at most
  unfoldable pub remove : K → Dict K V → Dict K V
  remove k [] = []
  remove k ((j, w) ∷ d) = let rest = remove k d in if j == k then rest else (j, w) ∷ rest

  -- `k in d`
  unfoldable pub has : K → Dict K V → Bool
  unfolding get
  has k d = is_some (get k d)

  pub get-put :
      (k j : K) (v : V) (d : Dict K V) → get j (put k v d) ≡ (if k == j then some v else get j d)
  unfolding get put
  get-put k j v [] = refl
  get-put k j v ((i, w) ∷ d) =
      ground (arith, beq_iff i k, beq_iff i j, beq_iff k j, get-put k j v d)

  pub get-remove :
      (k j : K) (d : Dict K V) → get j (remove k d) ≡ (if k == j then none else get j d)
  unfolding get remove
  get-remove k j [] = ground arith
  get-remove k j ((i, w) ∷ d) =
      ground (arith, beq_iff i k, beq_iff i j, beq_iff k j, get-remove k j d)

  pub get-put_self : (k : K) (v : V) (d : Dict K V) → get k (put k v d) ≡ some v
  get-put_self k v d = rw (get-put, (beq_iff k k).1 refl)

  pub length-put :
      (k : K) (v : V) (d : Dict K V)
      → length (put k v d) ≡ (if has k d then length d else suc (length d))
  unfolding put has
  length-put k v [] = refl
  length-put k v ((j, w) ∷ d) = ground (arith, beq_iff j k, length-put k v d)

  pub length-remove-le : (k : K) (d : Dict K V) → length (remove k d) ≤ length d
  unfolding remove
  length-remove-le k [] = omega arith
  length-remove-le k ((j, w) ∷ d) = ground (arith, length-remove-le k d)

  -- A removal of a key that is there makes the dictionary smaller.
  pub length-remove-lt : (k : K) (d : Dict K V) → has k d ≡ true → length (remove k d) < length d
  unfolding remove has
  length-remove-lt k [] h = cc
  length-remove-lt k ((j, w) ∷ d) h =
      ground (arith, beq_iff j k, length-remove-le k d, length-remove-lt k d)

  pub remove_absent : (k : K) (d : Dict K V) → has k d ≡ false → remove k d ≡ d
  unfolding remove has
  remove_absent k [] h = refl
  remove_absent k ((j, w) ∷ d) h = ground (arith, beq_iff j k, remove_absent k d)

  -- A new key goes to the end.
  pub put_new : (k : K) (v : V) (d : Dict K V) → has k d ≡ false → put k v d ≡ d ++ (k, v) ∷ []
  unfolding put has
  put_new k v [] h = refl
  put_new k v ((j, w) ∷ d) h = ground (arith, beq_iff j k, put_new k v d)

  -- Every value satisfies `P`.
  abbrev pub AllValues {μ} : (V → Type μ) → Dict K V → Type μ
  AllValues P [] = Unit
  AllValues P ((k, v) ∷ d) = P v × AllValues P d

  pub AllValues-put {μ} :
      (P : V → Type μ) (k : K) (v : V) (d : Dict K V)
      → P v
      → AllValues P d
      → AllValues P (put k v d)
  unfolding put
  AllValues-put P k v [] p h = (p, tt)
  AllValues-put P k v ((j, w) ∷ d) p h = elim (Bool-cases (j == k)) [
    | inl same ↦ rw same (p, h.1)
    | inr other ↦ rw other (h.0, AllValues-put P k v d p h.1)
  ]

  pub AllValues-remove {μ} :
      (P : V → Type μ) (k : K) (d : Dict K V) → AllValues P d → AllValues P (remove k d)
  unfolding remove
  AllValues-remove P k [] h = tt
  AllValues-remove P k ((j, w) ∷ d) h = elim (Bool-cases (j == k)) [
    | inl same ↦ rw same (AllValues-remove P k d h.1)
    | inr other ↦ rw other (h.0, AllValues-remove P k d h.1)
  ]

  pub AllValues-get {μ} :
      (P : V → Type μ) (k : K) {v : V} (d : Dict K V) → AllValues P d → get k d ≡ some v → P v
  unfolding get
  AllValues-get P k [] h e = absurd (cc)
  AllValues-get P k {v} ((j, w) ∷ d) h e = elim (Bool-cases (j == k)) [
    | inl same ↦ let found : w ≡ v = ground arith in subst P found h.0
    | inr other ↦ AllValues-get P k d h.1 (rw other at e)
  ]

pub ruleset dict_laws = (get-put, get-remove)
