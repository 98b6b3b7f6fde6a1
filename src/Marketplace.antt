-- ===== src/Marketplace.antt =====
-- backend/marketplace.py: listings, orders and ratings. The identifiers that `_generate_id` makes,
-- the times and the escrow's hash are arguments; `max_listings` is the configured limit.
pub mod Listings
pub mod Ratings
pub mod Invariant
use minima_pi_net_os.Prelude.{
  text_eq, ℕ, suc, ◌+◌, String, Bool, true, false, ◌&&◌, ◌||◌, Option, none, some, List, [], ◌∷◌,
  ◌++◌, map, length, keep, any, Result, ok, raise, runtime_error, key_error, leb, ◌==◌, nat_eq,
  if◌then◌else◌,
}
use minima_pi_net_os.Prelude.Int.{ℤ, pos, pos_part, max_ℤ, min_ℤ}
use minima_pi_net_os.Dict.Change.{change}
use minima_pi_net_os.Dict.{Dict, get, put, remove, has, values}

-- `round(sum(scores) / len(scores), 2)`, kept as the sum and the number of the scores.
pub record Average : Type 0 where
  pub sum : ℕ
  pub count : ℕ

pub record Listing : Type 0 where
  pub listing_id : String
  pub node_id : String
  pub name : String
  pub description : String
  pub cpu_cores : ℕ
  pub ram_gb : ℕ
  pub disk_gb : ℕ
  pub gpu_type : String
  pub npu_type : String
  pub price_per_hour : String
  pub token : String
  pub location : String
  pub status : String
  pub rating_avg : Average
  pub rating_count : ℕ
  pub tags : List String
  pub max_lease_hours : ℕ
  pub created_at : String

pub record Order : Type 0 where
  pub order_id : String
  pub listing_id : String
  pub buyer_node_id : String
  pub seller_node_id : String
  pub hours : ℕ
  pub total_price : String
  pub token : String
  pub status : String
  pub escrow_txid : String
  pub attestation_ref : String
  pub created_at : String
  pub completed_at : String

pub record Rating : Type 0 where
  pub listing_id : String
  pub order_id : String
  pub reviewer_node_id : String
  pub score : ℕ
  pub review : String
  pub timestamp : String

-- `LISTINGS`, `ORDERS` and `RATINGS`
pub record Market : Type 0 where
  pub listings : Dict String Listing
  pub orders : Dict String Order
  pub ratings : Dict String (List Rating)

-- A listing as `create_listing` makes it from its arguments: the members that it sets itself are
-- overwritten.
abbrev pub fresh : String → String → Listing → Listing
fresh lid now l = record l {
  listing_id = lid;
  status = "active";
  rating_avg = record { sum = 0; count = 0 };
  rating_count = 0;
  created_at = now;
}

unfoldable pub create_listing : ℕ → String → String → Listing → Market → Result Listing × Market
create_listing max_listings lid now l m =
    if leb max_listings (length m.listings)
    then (raise runtime_error, m)
    else (ok (fresh lid now l), record m { listings = put lid (fresh lid now l) m.listings })

unfoldable pub get_listing : String → Market → Option Listing
get_listing listing_id m = get listing_id m.listings

-- A filter is applied where its argument is not empty or zero.
unfoldable pub when {ℓ} : {A : Type ℓ} → Bool → (A → Bool) → List A → List A
when given p xs = if given then keep p xs else xs

abbrev pub is_given : String → Bool
is_given s = if s == "" then false else true

abbrev pub mem_text : String → List String → Bool
mem_text t ts = any (λ u. u == t) ts

-- `any(t in l["tags"] for t in tags)`
abbrev pub has_tag : List String → Listing → Bool
has_tag tags l = any (λ t. mem_text t l.tags) tags

abbrev pub is_empty : List String → Bool
is_empty [] = true
is_empty (t ∷ ts) = false

unfoldable pub list_listings : String → ℕ → String → List String → Market → List Listing
list_listings status min_ram node_id tags m =
    let all = values m.listings in
    let by_status = when (is_given status) (λ l. l.status == status) all in
    let by_ram = when (leb 1 min_ram) (λ l. leb min_ram l.ram_gb) by_status in
    let by_node = when (is_given node_id) (λ l. l.node_id == node_id) by_ram in
    when (if is_empty tags then false else true) (has_tag tags) by_node

unfoldable pub update_listing_status : String → String → Market → Result Listing × Market
update_listing_status listing_id status m =
    let (r, listings) = change listing_id (λ l. record l { status = status }) m.listings in
    (r, record m { listings = listings })

-- `LISTINGS.pop(listing_id, None) is not None`
unfoldable pub delete_listing : String → Market → Bool × Market
delete_listing listing_id m =
    (has listing_id m.listings, record m { listings = remove listing_id m.listings })

-- `price_of` is `f"{float(price) * hours:.6f}"`, which raises where the price is no number; the
-- order is given with the members that the caller chooses and the escrow's hash.
unfoldable pub create_order :
    (String → ℕ → Result String) → String → String → Order → Market → Result Order × Market
create_order price_of oid now o m = elim (get o.listing_id m.listings) [
  | none ↦ (raise key_error, m)
  | some listing ↦ elim (price_of listing.price_per_hour o.hours) [
    | raise e ↦ (raise e, m)
    | ok price ↦
        let order = record o {
          order_id = oid;
          total_price = price;
          status = "pending";
          attestation_ref = "";
          created_at = now;
          completed_at = "";
        } in
        (ok order, record m { orders = put oid order m.orders })
  ]
]

unfoldable pub get_order : String → Market → Option Order
get_order order_id m = get order_id m.orders

unfoldable pub list_orders : String → Market → List Order
list_orders node_id m =
    when (is_given node_id) (λ o. o.buyer_node_id == node_id || o.seller_node_id == node_id)
      (values m.orders)

unfoldable pub complete_order : String → String → Market → Result Order × Market
complete_order order_id now m =
    let (r, orders) =
      change order_id (λ o. record o { status = "completed"; completed_at = now }) m.orders in
    (r, record m { orders = orders })

unfoldable pub cancel_order : String → Market → Result Order × Market
cancel_order order_id m =
    let (r, orders) = change order_id (λ o. record o { status = "cancelled" }) m.orders in
    (r, record m { orders = orders })

-- `max(1, min(5, score))`
abbrev pub clamp_score : ℤ → ℕ
clamp_score score = pos_part (max_ℤ (pos 1) (min_ℤ (pos 5) score))

-- `RATINGS.get(listing_id, [])`
unfoldable pub get_ratings : String → Market → List Rating
get_ratings listing_id m = elim (get listing_id m.ratings) [ none ↦ [] | some rs ↦ rs ]

unfoldable pub sum_scores : List Rating → ℕ
sum_scores [] = 0
sum_scores (r ∷ rs) = r.score + sum_scores rs

-- The average and the count of a listing, where it is there.
unfoldable pub rate : String → List Rating → Dict String Listing → Dict String Listing
rate listing_id rs listings = elim (get listing_id listings) [
  | none ↦ listings
  | some l ↦
      put listing_id
        (record l {
          rating_avg = record { sum = sum_scores rs; count = length rs };
          rating_count = length rs;
        })
        listings
]

unfoldable pub create_rating :
    String → String → String → ℤ → String → String → Market → Rating × Market
create_rating listing_id order_id reviewer_node_id score review now m =
    let rating : Rating = record {
      listing_id = listing_id;
      order_id = order_id;
      reviewer_node_id = reviewer_node_id;
      score = clamp_score score;
      review = review;
      timestamp = now;
    } in
    let rs = get_ratings listing_id m ++ rating ∷ [] in
    (
      rating,
      record m { ratings = put listing_id rs m.ratings; listings = rate listing_id rs m.listings },
    )
