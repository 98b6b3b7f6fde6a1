-- ===== src/Marketplace/Invariant.antt =====
-- The invariant of backend/marketplace.py, kept by every operation.
use minima_pi_net_os.Prelude.{text_eq, ℕ, ◌*◌, ◌≤◌, ◌≡◌, String, List, [], ◌∷◌, Result, length}
use minima_pi_net_os.Prelude.Int.{ℤ}
use minima_pi_net_os.Dict.{Dict, AllValues}
use minima_pi_net_os.Marketplace.{
  Listing, Order, Rating, Market, create_listing, update_listing_status, delete_listing,
  create_order, complete_order, cancel_order, create_rating,
}

-- Every score is 1 to 5.
abbrev pub AllScores : List Rating → Type 0
AllScores [] = Unit
AllScores (r ∷ rs) = (1 ≤ r.score) × (r.score ≤ 5) × AllScores rs

-- The average of a listing is over as many ratings as it counts, and lies between 1 and 5 where
-- there are any.
pub record WellRated (l : Listing) : Type 0 where
  pub counted : l.rating_avg.count ≡ l.rating_count
  pub low : l.rating_count ≤ l.rating_avg.sum
  pub high : l.rating_avg.sum ≤ 5 * l.rating_count

pub record IsValid (max_listings : ℕ) (m : Market) : Type 0 where
  pub bounded : length m.listings ≤ max_listings
  pub scored : AllValues AllScores m.ratings
  pub averaged : AllValues WellRated m.listings

-- The operations that change the marketplace, with what the environment supplies to each.
pub data Operation : Type 0 where
  list : String → String → Listing → Operation
  set_status : String → String → Operation
  delist : String → Operation
  order : String → String → Order → Operation
  complete : String → String → Operation
  cancel : String → Operation
  review : String → String → String → ℤ → String → String → Operation

abbrev pub empty : Market
empty = record { listings = []; orders = []; ratings = [] }

module _ (max_listings : ℕ) (price_of : String → ℕ → Result String) where
  unfoldable pub step : Operation → Market → Market
  step (list lid now l) m = (create_listing max_listings lid now l m).1
  step (set_status lid status) m = (update_listing_status lid status m).1
  step (delist lid) m = (delete_listing lid m).1
  step (order oid now o) m = (create_order price_of oid now o m).1
  step (complete oid now) m = (complete_order oid now m).1
  step (cancel oid) m = (cancel_order oid m).1
  step (review lid oid reviewer score text now) m =
      (create_rating lid oid reviewer score text now m).1

  unfoldable pub run : List Operation → Market → Market
  run [] m = m
  run (op ∷ ops) m = run ops (step op m)
