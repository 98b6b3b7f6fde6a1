-- ===== src/Json/Sort.antt =====
-- `sorted` on the keys of a dictionary: texts compare by code points.
use minima_pi_net_os.Prelude.{
  Str, Bool, true, false, List, [], ◌∷◌, compare, Ordering, if◌then◌else◌,
}

-- `s <= t`
unfoldable pub str_leb : Str → Str → Bool
str_leb [] t = true
str_leb (a ∷ s) [] = false
str_leb (a ∷ s) (b ∷ t) =
    let rest = str_leb s t in
    elim (compare a b) [ Ordering.lt ↦ true | Ordering.eq ↦ rest | Ordering.gt ↦ false ]

-- A value with the key that it stands under.
abbrev pub Keyed {ℓ} : Type ℓ → Type ℓ
Keyed A = Str × A

module _ {ℓ} {A : Type ℓ} where
  unfoldable pub insert_key : Str → A → List (Keyed A) → List (Keyed A)
  insert_key k v [] = (k, v) ∷ []
  insert_key k v ((j, w) ∷ l) =
      let rest = insert_key k v l in if str_leb k j then (k, v) ∷ (j, w) ∷ l else (j, w) ∷ rest

  unfoldable pub sort_keys : List (Keyed A) → List (Keyed A)
  unfolding insert_key str_leb
  sort_keys [] = []
  sort_keys ((k, v) ∷ l) = insert_key k v (sort_keys l)
