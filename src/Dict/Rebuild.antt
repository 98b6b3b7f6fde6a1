-- ===== src/Dict/Rebuild.antt =====
-- A dictionary of objects stored as the list of them and built again from it: `to_state` and
-- `from_state` of the managers. Each object has its key among its members.
use minima_pi_net_os.Prelude.{
  ◌≡◌, refl, sym, subst, ap, ◌∙◌, inl, inr, false, Option, none, some, List, [], ◌∷◌, ◌++◌, map,
  append-nil, append_assoc, arith, Equality, ◌==◌, beq_iff, Bool-cases, Option-cases,
}
use minima_pi_net_os.Dict.{Dict, get, put, remove, has, values, put_new}
use minima_pi_net_os.Dict.Distinct.{IsDistinct, IsDistinct-put}
use minima_pi_net_os.Dict.Change.{change}

module _ {ℓ κ μ} {K : Type ℓ} {V : Type κ} {Item : Type μ} ⦃e : Equality K⦄ where
  -- `build` gives nothing where the class raises `ValueError` or `TypeError`: the item is skipped.
  unfoldable pub load_all : (V → K) → (Item → Option V) → List Item → Dict K V → Dict K V
  load_all key build [] d = d
  load_all key build (item ∷ items) d = elim (build item) [
    | none ↦ load_all key build items d
    | some v ↦ load_all key build items (put (key v) v d)
  ]

module _ {ℓ κ} {K : Type ℓ} {V : Type κ} ⦃e : Equality K⦄ where
  -- Every object is kept under the key that it has.
  abbrev pub IsKeyed : (V → K) → Dict K V → Type ℓ
  IsKeyed key [] = Unit
  IsKeyed key ((k, v) ∷ d) = (k ≡ key v) × IsKeyed key d

  abbrev AllAbsent : Dict K V → Dict K V → Type 0
  AllAbsent acc [] = Unit
  AllAbsent acc ((k, v) ∷ d) = (has k acc ≡ false) × AllAbsent acc d

  has-append_other :
      (k j : K) (v : V) (acc : Dict K V)
      → has j acc ≡ false
      → (k == j) ≡ false
      → has j (acc ++ (k, v) ∷ []) ≡ false
  unfolding has get
  has-append_other k j v [] h ne = ground arith
  has-append_other k j v ((i, w) ∷ acc) h ne = ground (arith, has-append_other k j v acc)

  has_head-other : (k j : K) (w : V) (d : Dict K V) → has k ((j, w) ∷ d) ≡ false → (k == j) ≡ false
  unfolding has get
  has_head-other k j w d h = ground (arith, beq_iff j k, beq_iff k j)

  has_tail-other : (k j : K) (w : V) (d : Dict K V) → has k ((j, w) ∷ d) ≡ false → has k d ≡ false
  unfolding has get
  has_tail-other k j w d h = ground arith

  AllAbsent-append :
      (k : K) (v : V) (acc d : Dict K V)
      → has k d ≡ false
      → AllAbsent acc d
      → AllAbsent (acc ++ (k, v) ∷ []) d
  AllAbsent-append k v acc [] gone h = tt
  AllAbsent-append k v acc ((j, w) ∷ d) gone h = (
    has-append_other k j v acc h.0 (has_head-other k j w d gone),
    AllAbsent-append k v acc d (has_tail-other k j w d gone) h.1,
  )

  AllAbsent-empty : (d : Dict K V) → AllAbsent [] d
  unfolding has get
  AllAbsent-empty [] = tt
  AllAbsent-empty ((k, v) ∷ d) = (refl, AllAbsent-empty d)

  pub IsKeyed-put :
      (key : V → K) (k : K) (v : V) (d : Dict K V)
      → k ≡ key v
      → IsKeyed key d
      → IsKeyed key (put k v d)
  unfolding put
  IsKeyed-put key k v [] same h = (same, tt)
  IsKeyed-put key k v ((j, w) ∷ d) same h = elim (Bool-cases (j == k)) [
    | inl eq ↦ rw eq ((beq_iff j k).0 eq ∙ same, h.1)
    | inr other ↦ rw other (h.0, IsKeyed-put key k v d same h.1)
  ]

  pub IsKeyed-remove :
      (key : V → K) (k : K) (d : Dict K V) → IsKeyed key d → IsKeyed key (remove k d)
  unfolding remove
  IsKeyed-remove key k [] h = tt
  IsKeyed-remove key k ((j, w) ∷ d) h = elim (Bool-cases (j == k)) [
    | inl eq ↦ rw eq (IsKeyed-remove key k d h.1)
    | inr other ↦ rw other (h.0, IsKeyed-remove key k d h.1)
  ]

  pub IsKeyed-get :
      (key : V → K) (k : K) {v : V} (d : Dict K V) → IsKeyed key d → get k d ≡ some v → k ≡ key v
  unfolding get
  IsKeyed-get key k [] h at = absurd (cc)
  IsKeyed-get key k {v} ((j, w) ∷ d) h at = elim (Bool-cases (j == k)) [
    | inl eq ↦ let found : w ≡ v = ground arith in sym ((beq_iff j k).0 eq) ∙ h.0 ∙ ap key found
    | inr other ↦ IsKeyed-get key k d h.1 (rw other at at)
  ]

  -- A change that keeps the key among the members keeps the objects under their keys.
  pub IsKeyed-change :
      (key : V → K) (k : K) (f : V → V) (d : Dict K V)
      → ((v : V) → key (f v) ≡ key v)
      → IsKeyed key d
      → IsKeyed key (change k f d).1
  unfolding change
  IsKeyed-change key k f d keeps h = elim (Option-cases (get k d)) [
    | inl gone ↦ rw (gone, change) h
    | inr (v, at) ↦
        rw (at, change) (IsKeyed-put key k (f v) d (IsKeyed-get key k d h at ∙ sym (keeps v)) h)
  ]

  pub IsDistinct-change :
      (k : K) (f : V → V) (d : Dict K V) → IsDistinct d → IsDistinct (change k f d).1
  unfolding change
  IsDistinct-change k f d h = elim (Option-cases (get k d)) [
    | inl gone ↦ rw (gone, change) h
    | inr (v, at) ↦ rw (at, change) (IsDistinct-put k (f v) d h)
  ]

module _ {ℓ κ μ} {K : Type ℓ} {V : Type κ} {Item : Type μ} ⦃e : Equality K⦄ (key : V → K)
    (build : Item → Option V) (dump : V → Item) where
  load_all-onto :
      (d acc : Dict K V)
      → ((v : V) → build (dump v) ≡ some v)
      → IsKeyed key d
      → IsDistinct d
      → AllAbsent acc d
      → load_all key build (map dump (values d)) acc ≡ acc ++ d
  unfolding load_all
  load_all-onto [] acc again keyed distinct absent = sym (append-nil acc)
  load_all-onto ((k, v) ∷ d) acc again keyed distinct absent =
      let new : put (key v) v acc ≡ acc ++ (k, v) ∷ [] =
        subst (λ i. put i v acc ≡ acc ++ (k, v) ∷ []) keyed.0 (put_new k v acc absent.0) in
      rw (again, new)
        (load_all-onto d (acc ++ (k, v) ∷ []) again keyed.1 distinct.1
            (AllAbsent-append k v acc d distinct.0 absent.1)
          ∙ append_assoc acc ((k, v) ∷ []) d)

  -- What is stored comes back as it was, in its order, where each object is under its own key.
  pub load_all-dump :
      (d : Dict K V)
      → ((v : V) → build (dump v) ≡ some v)
      → IsKeyed key d
      → IsDistinct d
      → load_all key build (map dump (values d)) [] ≡ d
  load_all-dump d again keyed distinct = load_all-onto d [] again keyed distinct (AllAbsent-empty d)
