-- ===== src/Dict/Elements.antt =====
-- The entries of a dictionary as the elements of a list.
use minima_pi_net_os.Prelude.{
  ℕ, zero, suc, ◌<◌, ◌≡◌, refl, ap, ap₂, sym, inl, inr, true, some, [], ◌∷◌, length, take, arith,
  Equality, ◌==◌, beq_iff, Bool-cases,
}
use minima_pi_net_os.Prelude.Sorting.{Elem, here, there}
use minima_pi_net_os.Dict.{Dict, keys, get, has, remove, length-remove-lt}
use minima_pi_net_os.Dict.Distinct.{IsDistinct, mem, remove_all, length-remove_all-le}

module _ {ℓ κ} {K : Type ℓ} {V : Type κ} ⦃e : Equality K⦄ where
  pub get-Elem : (k : K) {v : V} (d : Dict K V) → get k d ≡ some v → Elem (k, v) d
  unfolding get
  get-Elem k [] at = absurd (cc)
  get-Elem k {v} ((j, w) ∷ d) at = elim (Bool-cases (j == k)) [
    | inl same ↦
        let key : k ≡ j = sym ((beq_iff j k).0 same) in
        let value : some v ≡ some w = sym (rw same at at) in
        let same_value : v ≡ w = cc in here (ap₂ (λ a b. (a, b)) key same_value)
    | inr other ↦ there (get-Elem k d (rw other at at))
  ]

  pub has_of_Elem : (k : K) {v : V} (d : Dict K V) → Elem (k, v) d → has k d ≡ true
  unfolding has get
  has_of_Elem k [] m = elim m [ ]
  has_of_Elem k ((j, w) ∷ d) (here p) = ground (arith, beq_iff j k, ap (λ x. x.0) p)
  has_of_Elem k ((j, w) ∷ d) (there m) = ground (arith, has_of_Elem k d m)

  pub get_of_Elem : (k : K) {v : V} (d : Dict K V) → IsDistinct d → Elem (k, v) d → get k d ≡ some v
  unfolding get
  get_of_Elem k [] h m = elim m [ ]
  get_of_Elem k ((j, w) ∷ d) h (here p) =
      ground (arith, beq_iff j k, ap (λ x. x.0) p, ap (λ x. x.1) p)
  get_of_Elem k ((j, w) ∷ d) h (there m) = elim (Bool-cases (j == k)) [
    | inl same ↦ ground (arith, beq_iff j k, has_of_Elem k d m)
    | inr other ↦ rw other (get_of_Elem k d h.1 m)
  ]

  pub mem_of_Elem : (k : K) {v : V} (d : Dict K V) → Elem (k, v) d → mem k (keys d) ≡ true
  unfolding mem
  mem_of_Elem k [] m = elim m [ ]
  mem_of_Elem k ((j, w) ∷ d) (here p) = ground (arith, beq_iff j k, ap (λ x. x.0) p)
  mem_of_Elem k ((j, w) ∷ d) (there m) = ground (arith, mem_of_Elem k d m)

  pub mem-Elem : (k : K) (d : Dict K V) → mem k (keys d) ≡ true → (v : V) × Elem (k, v) d
  unfolding mem
  mem-Elem k [] m = absurd (cc)
  mem-Elem k ((j, w) ∷ d) m = elim (Bool-cases (j == k)) [
    | inl same ↦ (w, here (ap (λ i. (i, w)) (sym ((beq_iff j k).0 same))))
    | inr other ↦ let (v, at) = mem-Elem k d (rw other at m) in (v, there at)
  ]

  -- To remove the keys of a cut that is not empty makes the dictionary smaller.
  pub length-remove_all-lt :
      (n : ℕ) (xs d : Dict K V)
      → 0 < n
      → 0 < length xs
      → ((x : K × V) → Elem x xs → Elem x d)
      → length (remove_all (keys (take n xs)) d) < length d
  unfolding take remove_all
  length-remove_all-lt zero xs d h h' sub = absurd (omega arith)
  length-remove_all-lt (suc n) [] d h h' sub = absurd (omega arith)
  length-remove_all-lt (suc n) ((k, v) ∷ xs) d h h' sub =
      let there_is : has k d ≡ true = has_of_Elem k d (sub (k, v) (here refl)) in
      omega
        (arith, length-remove-lt k d there_is, length-remove_all-le (keys (take n xs)) (remove k d))
