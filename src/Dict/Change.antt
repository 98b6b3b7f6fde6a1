-- ===== src/Dict/Change.antt =====
-- A change of an object that a dictionary holds: `d[k]["member"] = v`, after a guard that raises
-- `KeyError` where the key is absent.
use minima_pi_net_os.Prelude.{
  ◌≡◌, refl, inl, inr, true, none, some, length, Result, ok, raise, key_error, arith, Equality,
  ◌==◌, beq_iff, Option-cases, Bool-cases, subst, sym, ◌∙◌, if◌then◌else◌,
}
use minima_pi_net_os.Dict.{
  Dict, get, put, has, get-put, get-put_self, length-put, AllValues, AllValues-put, AllValues-get,
}

module _ {ℓ κ} {K : Type ℓ} {V : Type κ} ⦃e : Equality K⦄ where
  unfoldable pub change : K → (V → V) → Dict K V → Result V × Dict K V
  change k f d = elim (get k d) [ none ↦ (raise key_error, d) | some v ↦ (ok (f v), put k (f v) d) ]

  pub length-change : (k : K) (f : V → V) (d : Dict K V) → length (change k f d).1 ≡ length d
  unfolding change
  length-change k f d = elim (Option-cases (get k d)) [
    | inl gone ↦ rw (gone, change) refl
    | inr (v, at) ↦
        let there : has k d ≡ true = unfold has in rw at in
        rw (at, change) (rw there at (length-put k (f v) d))
  ]

  -- The value of the key changes, and that of any other key does not.
  pub get-change :
      (k j : K) (f : V → V) (d : Dict K V)
      → get j (change k f d).1
        ≡ (if k == j then elim (get k d) [ none ↦ none | some v ↦ some (f v) ] else get j d)
  unfolding change
  get-change k j f d = elim (Option-cases (get k d)) [
    | inl gone ↦ rw (gone, change) (ground (arith, beq_iff k j, gone))
    | inr (v, at) ↦ rw (at, change) (get-put k j (f v) d)
  ]

  pub get-change_self :
      (k : K) (f : V → V) (d : Dict K V) {v : V}
      → get k d ≡ some v
      → get k (change k f d).1 ≡ some (f v)
  unfolding change
  get-change_self k f d {v} at = rw (at, change) (get-put_self k (f v) d)

  -- What `f` keeps of a value, a change of any key keeps.
  pub get-change_keeps {μ} :
      {P : V → Type μ} (k j : K) (f : V → V) (d : Dict K V) {v : V}
      → get j d ≡ some v
      → P v
      → P (f v)
      → (w : V) × (get j (change k f d).1 ≡ some w) × P w
  get-change_keeps {P = P} k j f d {v} at p q = elim (Bool-cases (k == j)) [
    | inl same ↦
        let eq : k ≡ j = (beq_iff k j).0 same in
        (
          f v,
          subst (λ i. get i (change k f d).1 ≡ some (f v)) eq
              (get-change_self k f d (subst (λ i. get i d ≡ some v) (sym eq) at)),
          q,
        )
    | inr other ↦ (v, get-change k j f d ∙ rw other at, p)
  ]

  pub AllValues-change {μ} :
      (P : V → Type μ) (k : K) (f : V → V) (d : Dict K V)
      → ((v : V) → P v → P (f v))
      → AllValues P d
      → AllValues P (change k f d).1
  unfolding change
  AllValues-change P k f d keeps h = elim (Option-cases (get k d)) [
    | inl gone ↦ rw (gone, change) h
    | inr (v, at) ↦
        rw (at, change) (AllValues-put P k (f v) d (keeps v (AllValues-get P k d h at)) h)
  ]
