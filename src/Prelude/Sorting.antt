-- ===== src/Prelude/Sorting.antt =====
-- `sorted(xs, key=f)`: a stable sort by a number, and what the order gives for a cut of the result.
use Prim.Native.Nat.{ℕ, zero, suc, ◌≤◌}
use mathlib.Core.Path.{◌≡◌, refl, subst, sym}
use mathlib.Core.Logic.{◌⊎◌, inl, inr}
use mathlib.Core.List.{List, [], ◌∷◌}
use native.Mathlib.Omega.{arith}
use minima_pi_net_os.Prelude.Tests.{leb, leb→le, Bool-cases, if◌then◌else◌}
use minima_pi_net_os.Prelude.Lists.{length, take, drop}

-- `x` stands in the list, at a place that can be looked at.
pub data Elem {ℓ} {A : Type ℓ} (x : A) : List A → Type ℓ where
  here : {y : A} {ys : List A} → x ≡ y → Elem x (y ∷ ys)
  there : {y : A} {ys : List A} → Elem x ys → Elem x (y ∷ ys)

module _ {ℓ} {A : Type ℓ} where
  Elem-cons : {z y : A} {ys : List A} → Elem z (y ∷ ys) → (z ≡ y) ⊎ Elem z ys
  Elem-cons (here e) = inl e
  Elem-cons (there m) = inr m

  Elem-join :
      {z x : A} {ys xs : List A} → (z ≡ x) ⊎ Elem z ys → (Elem z ys → Elem z xs) → Elem z (x ∷ xs)
  Elem-join (inl e) k = here e
  Elem-join (inr m) k = there (k m)

  Elem-swap :
      {z x y : A} {ws ys : List A}
      → (z ≡ y) ⊎ Elem z ws
      → (Elem z ws → (z ≡ x) ⊎ Elem z ys)
      → (z ≡ x) ⊎ Elem z (y ∷ ys)
  Elem-swap (inl e) k = inr (here e)
  Elem-swap (inr m) k = elim (k m) [ inl e ↦ inl e | inr n ↦ inr (there n) ]

  -- A cut loses nothing.
  pub Elem-cut : (n : ℕ) (xs : List A) {z : A} → Elem z xs → Elem z (take n xs) ⊎ Elem z (drop n xs)
  unfolding take
  Elem-cut zero xs m = inr m
  Elem-cut (suc n) [] m = elim m [ ]
  Elem-cut (suc n) (x ∷ xs) (here e) = inl (here e)
  Elem-cut (suc n) (x ∷ xs) (there m) = elim (Elem-cut n xs m) [
    | inl before ↦ inl (there before)
    | inr after ↦ inr after
  ]

  pub Elem-of-take : (n : ℕ) (xs : List A) {z : A} → Elem z (take n xs) → Elem z xs
  unfolding take
  Elem-of-take zero xs m = elim m [ ]
  Elem-of-take (suc n) [] m = elim m [ ]
  Elem-of-take (suc n) (x ∷ xs) (here e) = here e
  Elem-of-take (suc n) (x ∷ xs) (there m) = there (Elem-of-take n xs m)

  pub Elem-of-drop : (n : ℕ) (xs : List A) {z : A} → Elem z (drop n xs) → Elem z xs
  Elem-of-drop zero xs m = m
  Elem-of-drop (suc n) [] m = elim m [ ]
  Elem-of-drop (suc n) (x ∷ xs) m = there (Elem-of-drop n xs m)

module _ {ℓ} {A : Type ℓ} (f : A → ℕ) where
  unfoldable pub insert_by : A → List A → List A
  insert_by x [] = x ∷ []
  insert_by x (y ∷ ys) =
      let rest = insert_by x ys in if leb (f x) (f y) then x ∷ y ∷ ys else y ∷ rest

  -- The items of equal keys keep their order.
  unfoldable pub sort_by : List A → List A
  unfolding insert_by
  sort_by [] = []
  sort_by (x ∷ xs) = insert_by x (sort_by xs)

  pub length-insert_by : (x : A) (ys : List A) → length (insert_by x ys) ≡ suc (length ys)
  unfolding insert_by
  length-insert_by x [] = refl
  length-insert_by x (y ∷ ys) = ground (arith, length-insert_by x ys)

  pub length-sort_by : (xs : List A) → length (sort_by xs) ≡ length xs
  unfolding sort_by
  length-sort_by [] = refl
  length-sort_by (x ∷ xs) = omega (arith, length-insert_by x (sort_by xs), length-sort_by xs)

  Elem-insert_by_new : (x : A) (ys : List A) → Elem x (insert_by x ys)
  unfolding insert_by
  Elem-insert_by_new x [] = here refl
  Elem-insert_by_new x (y ∷ ys) = elim (Bool-cases (leb (f x) (f y))) [
    | inl le ↦ rw le (here refl)
    | inr gt ↦ rw gt (there (Elem-insert_by_new x ys))
  ]

  Elem-insert_by_old : (z x : A) (ys : List A) → Elem z ys → Elem z (insert_by x ys)
  unfolding insert_by
  Elem-insert_by_old z x [] m = elim m [ ]
  Elem-insert_by_old z x (y ∷ ys) (here e) = elim (Bool-cases (leb (f x) (f y))) [
    | inl le ↦ rw le (there (here e))
    | inr gt ↦ rw gt (here e)
  ]
  Elem-insert_by_old z x (y ∷ ys) (there m) = elim (Bool-cases (leb (f x) (f y))) [
    | inl le ↦ rw le (there (there m))
    | inr gt ↦ rw gt (there (Elem-insert_by_old z x ys m))
  ]

  Elem-of-insert_by : (z x : A) (ys : List A) → Elem z (insert_by x ys) → (z ≡ x) ⊎ Elem z ys
  unfolding insert_by
  Elem-of-insert_by z x [] m = Elem-cons m
  Elem-of-insert_by z x (y ∷ ys) m = elim (Bool-cases (leb (f x) (f y))) [
    | inl le ↦ Elem-cons (rw le at m)
    | inr gt ↦ Elem-swap (Elem-cons (rw gt at m)) (Elem-of-insert_by z x ys)
  ]

  pub Elem-sort_by : (z : A) (xs : List A) → Elem z xs → Elem z (sort_by xs)
  unfolding sort_by
  Elem-sort_by z [] m = elim m [ ]
  Elem-sort_by z (x ∷ xs) (here e) =
      subst (λ y. Elem y (insert_by x (sort_by xs))) (sym e) (Elem-insert_by_new x (sort_by xs))
  Elem-sort_by z (x ∷ xs) (there m) = Elem-insert_by_old z x (sort_by xs) (Elem-sort_by z xs m)

  pub Elem-of-sort_by : (z : A) (xs : List A) → Elem z (sort_by xs) → Elem z xs
  unfolding sort_by
  Elem-of-sort_by z [] m = elim m [ ]
  Elem-of-sort_by z (x ∷ xs) m =
      Elem-join (Elem-of-insert_by z x (sort_by xs) m) (Elem-of-sort_by z xs)

  -- No item stands before one with a smaller key.
  abbrev pub IsSortedBy : List A → Type ℓ
  IsSortedBy [] = Unit
  IsSortedBy (x ∷ xs) = ((y : A) → Elem y xs → f x ≤ f y) × IsSortedBy xs

  below_all :
      (x y : A) (ys : List A)
      → f x ≤ f y
      → ((z : A) → Elem z ys → f y ≤ f z)
      → (z : A) → Elem z (y ∷ ys)
      → f x ≤ f z
  below_all x y ys le h z (here e) = rw e le
  below_all x y ys le h z (there m) = omega (arith, h z m)

  above :
      (x y : A) (ys : List A)
      → f y ≤ f x
      → ((z : A) → Elem z ys → f y ≤ f z)
      → (z : A) → (z ≡ x) ⊎ Elem z ys
      → f y ≤ f z
  above x y ys le h z (inl e) = rw e le
  above x y ys le h z (inr m) = h z m

  insert_by-IsSortedBy : (x : A) (ys : List A) → IsSortedBy ys → IsSortedBy (insert_by x ys)
  unfolding insert_by
  insert_by-IsSortedBy x [] s = ((λ y m. elim m [ ]), tt)
  insert_by-IsSortedBy x (y ∷ ys) s = elim (Bool-cases (leb (f x) (f y))) [
    | inl le ↦ rw le (below_all x y ys (leb→le _ _ le) s.0, s)
    | inr gt ↦ rw gt (
      (λ z m. above x y ys (ground arith) s.0 z (Elem-of-insert_by z x ys m)),
      insert_by-IsSortedBy x ys s.1,
    )
  ]

  pub sort_by-IsSortedBy : (xs : List A) → IsSortedBy (sort_by xs)
  unfolding sort_by
  sort_by-IsSortedBy [] = tt
  sort_by-IsSortedBy (x ∷ xs) = insert_by-IsSortedBy x (sort_by xs) (sort_by-IsSortedBy xs)

  -- A cut of a sorted list: nothing before it is above what stands after it.
  pub take-le-drop :
      (n : ℕ) (xs : List A) (y z : A)
      → IsSortedBy xs
      → Elem y (take n xs)
      → Elem z (drop n xs)
      → f y ≤ f z
  unfolding take
  take-le-drop zero xs y z s m k = elim m [ ]
  take-le-drop (suc n) [] y z s m k = elim m [ ]
  take-le-drop (suc n) (x ∷ xs) y z s (here e) k = rw e (s.0 z (Elem-of-drop n xs k))
  take-le-drop (suc n) (x ∷ xs) y z s (there m) k = take-le-drop n xs y z s.1 m k
