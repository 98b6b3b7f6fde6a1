-- ===== src/Dict/Distinct.antt =====
-- One entry for a key, which every write and removal keeps.
use minima_pi_net_os.Prelude.{
  ◌≤◌, length, ◌≡◌, refl, ◌≢◌, inl, inr, Bool, true, false, ◌||◌, none, some, List, [], ◌∷◌, arith,
  Equality, ◌==◌, beq_iff, Bool-cases, keep, if◌then◌else◌,
}
use minima_pi_net_os.Dict.{Dict, keys, get, put, remove, has, get-put, get-remove, length-remove-le}

module _ {ℓ} {K : Type ℓ} ⦃e : Equality K⦄ where
  -- `k in ks`
  unfoldable pub mem : K → List K → Bool
  mem k [] = false
  mem k (j ∷ ks) = j == k || mem k ks

module _ {ℓ κ} {K : Type ℓ} {V : Type κ} ⦃e : Equality K⦄ where
  abbrev pub IsDistinct : Dict K V → Type 0
  IsDistinct [] = Unit
  IsDistinct ((k, v) ∷ d) = (has k d ≡ false) × IsDistinct d

  has-put : (k j : K) (v : V) (d : Dict K V) → k ≢ j → has j (put k v d) ≡ has j d
  unfolding has
  has-put k j v d ne = ground (arith, get-put k j v d, beq_iff k j)

  has-remove : (k j : K) (d : Dict K V) → has j d ≡ false → has j (remove k d) ≡ false
  unfolding has
  has-remove k j d h = ground (arith, get-remove k j d, beq_iff k j)

  pub IsDistinct-put : (k : K) (v : V) (d : Dict K V) → IsDistinct d → IsDistinct (put k v d)
  unfolding put has
  IsDistinct-put k v [] h = (refl, tt)
  IsDistinct-put k v ((j, w) ∷ d) h = elim (Bool-cases (j == k)) [
    | inl same ↦ rw same h
    | inr other ↦ rw other (ground (arith, has-put k j v d, beq_iff j k), IsDistinct-put k v d h.1)
  ]

  pub IsDistinct-remove : (k : K) (d : Dict K V) → IsDistinct d → IsDistinct (remove k d)
  unfolding remove
  IsDistinct-remove k [] h = tt
  IsDistinct-remove k ((j, w) ∷ d) h = elim (Bool-cases (j == k)) [
    | inl same ↦ rw same (IsDistinct-remove k d h.1)
    | inr other ↦ rw other (has-remove k j d h.0, IsDistinct-remove k d h.1)
  ]

  -- `for k in ks: del d[k]`
  unfoldable pub remove_all : List K → Dict K V → Dict K V
  remove_all [] d = d
  remove_all (k ∷ ks) d = remove_all ks (remove k d)

  pub get-remove_all :
      (ks : List K) (j : K) (d : Dict K V)
      → get j (remove_all ks d) ≡ (if mem j ks then none else get j d)
  unfolding remove_all mem
  get-remove_all [] j d = refl
  get-remove_all (k ∷ ks) j d = ground (arith, get-remove_all ks j (remove k d), get-remove k j d)

  pub IsDistinct-remove_all :
      (ks : List K) (d : Dict K V) → IsDistinct d → IsDistinct (remove_all ks d)
  unfolding remove_all
  IsDistinct-remove_all [] d h = h
  IsDistinct-remove_all (k ∷ ks) d h =
      IsDistinct-remove_all ks (remove k d) (IsDistinct-remove k d h)

  pub length-remove_all-le : (ks : List K) (d : Dict K V) → length (remove_all ks d) ≤ length d
  unfolding remove_all
  length-remove_all-le [] d = omega arith
  length-remove_all-le (k ∷ ks) d =
      omega (arith, length-remove_all-le ks (remove k d), length-remove-le k d)

  -- The keys of the entries that pass a test.
  abbrev pub keys_where : (K × V → Bool) → Dict K V → List K
  keys_where p d = keys (keep p d)

  -- A key that a test selects is there, at a value that passes the test.
  mem-keys_where-has :
      (p : K × V → Bool) (k : K) (d : Dict K V) → mem k (keys_where p d) ≡ true → has k d ≡ true
  unfolding mem keep has get
  mem-keys_where-has p k [] h = cc
  mem-keys_where-has p k ((j, w) ∷ d) h = ground (arith, mem-keys_where-has p k d)

  pub mem-keys_where :
      (p : K × V → Bool) (k : K) (d : Dict K V)
      → IsDistinct d
      → mem k (keys_where p d) ≡ true
      → (v : V) × (get k d ≡ some v) × (p (k, v) ≡ true)
  unfolding mem keep get has
  mem-keys_where p k [] h m = absurd (cc)
  mem-keys_where p k ((j, w) ∷ d) h m = elim (Bool-cases (j == k)) [
    | inl same ↦ (w, rw same, ground (arith, beq_iff j k, mem-keys_where-has p k d))
    | inr other ↦
        let (v, at, passes) = mem-keys_where p k d h.1 (ground arith) in (v, rw other at, passes)
  ]

  pub mem_of_get :
      (p : K × V → Bool) (k : K) {v : V} (d : Dict K V)
      → get k d ≡ some v
      → p (k, v) ≡ true
      → mem k (keys_where p d) ≡ true
  unfolding mem keep get
  mem_of_get p k [] h m = cc
  mem_of_get p k {v} ((j, w) ∷ d) h m = ground (arith, beq_iff j k, mem_of_get p k {v = v} d)
