-- ===== src/Marketplace/Listings.antt =====
-- What `list_listings` of backend/marketplace.py returns.
use minima_pi_net_os.Prelude.{
  text_eq, ℕ, ◌≡◌, refl, sym, ap, String, Bool, true, false, ◌&&◌, List, [], ◌∷◌, keep, arith, leb,
  ◌==◌, if◌then◌else◌,
}
use minima_pi_net_os.Dict.{values}
use minima_pi_net_os.Marketplace.{Listing, Market, when, is_given, has_tag, is_empty, list_listings}

-- A condition that counts only where its argument is given.
abbrev pub unless_given : Bool → Bool → Bool
unless_given given holds = if given then holds else true

-- The one condition that a listing has to meet.
abbrev pub matches : String → ℕ → String → List String → Listing → Bool
matches status min_ram node_id tags l =
    ((unless_given (is_given status) (l.status == status)
        && unless_given (leb 1 min_ram) (leb min_ram l.ram_gb))
      && unless_given (is_given node_id) (l.node_id == node_id))
    && unless_given (if is_empty tags then false else true) (has_tag tags l)

module _ {ℓ} {A : Type ℓ} where
  keep-and : (p q : A → Bool) (xs : List A) → keep q (keep p xs) ≡ keep (λ x. p x && q x) xs
  unfolding keep
  keep-and p q [] = refl
  keep-and p q (x ∷ xs) = ground (arith, keep-and p q xs)

  keep_all : (xs : List A) → keep (λ x. true) xs ≡ xs
  unfolding keep
  keep_all [] = refl
  keep_all (x ∷ xs) = ap (◌∷◌ x) (keep_all xs)

  when-keep :
      (given : Bool) (p : A → Bool) (xs : List A)
      → when given p xs ≡ keep (λ x. unless_given given (p x)) xs
  unfolding when
  when-keep true p xs = refl
  when-keep false p xs = sym (keep_all xs)

-- The four filters in a row keep exactly the listings that meet every given condition, in the order
-- of their insertion.
pub list_listings-matches :
    (status : String) (min_ram : ℕ) (node_id : String) (tags : List String) (m : Market)
    → list_listings status min_ram node_id tags m
      ≡ keep (matches status min_ram node_id tags) (values m.listings)
unfolding list_listings
list_listings-matches status min_ram node_id tags m = simp (when-keep, keep-and)
