-- ===== src/Marketplace/Ratings.antt =====
-- What `create_rating` of backend/marketplace.py writes.
use minima_pi_net_os.Prelude.{
  text_eq, ◌+◌, ◌≤◌, ◌≡◌, ◌≢◌, refl, String, some, List, [], ◌∷◌, ◌++◌, length, arith, beq_iff,
  Option-cases, ◌∙◌, inl, inr, length-append,
}
use minima_pi_net_os.Prelude.Int.{ℤ}
use minima_pi_net_os.Dict.{Dict, get, get-put, get-put_self}
use minima_pi_net_os.Marketplace.{
  Listing, Rating, Market, clamp_score, get_ratings, sum_scores, rate, create_rating,
}

pub sum_scores-append :
    (rs : List Rating) (r : Rating) → sum_scores (rs ++ r ∷ []) ≡ sum_scores rs + r.score
unfolding sum_scores
sum_scores-append [] r = omega arith
sum_scores-append (x ∷ rs) r = omega (arith, sum_scores-append rs r)

-- The listing with the count and the average of these ratings.
abbrev pub rated : List Rating → Listing → Listing
rated rs l = record l {
  rating_avg = record { sum = sum_scores rs; count = length rs };
  rating_count = length rs;
}

get-rate_self :
    (lid : String) (rs : List Rating) (d : Dict String Listing) {l : Listing}
    → get lid d ≡ some l
    → get lid (rate lid rs d) ≡ some (rated rs l)
unfolding rate
get-rate_self lid rs d {l} at = rw (at, rate) (get-put_self lid (rated rs l) d)

get-rate_ne :
    (lid j : String) (rs : List Rating) (d : Dict String Listing)
    → lid ≢ j
    → get j (rate lid rs d) ≡ get j d
unfolding rate
get-rate_ne lid j rs d ne = elim (Option-cases (get lid d)) [
  | inl gone ↦ rw (gone, rate)
  | inr (l, at) ↦ rw (at, rate) (ground (arith, get-put lid j (rated rs l) d, beq_iff lid j))
]

module _ (lid order_id reviewer : String) (score : ℤ) (review now : String) (m : Market) where
  abbrev pub after : Market
  after = (create_rating lid order_id reviewer score review now m).1

  abbrev rating : Rating
  rating = (create_rating lid order_id reviewer score review now m).0

  get_ratings-create_self : get_ratings lid after ≡ get_ratings lid m ++ rating ∷ []
  unfolding create_rating get_ratings
  get_ratings-create_self =
      ground (arith, get-put_self lid (get_ratings lid m ++ rating ∷ []) m.ratings)

  -- A rating of a listing that is there is appended to the listing's ratings with its score clamped
  -- to 1 to 5, the listing's count and average become those of all its ratings, the new one
  -- included, and nothing else of the listing changes.
  pub create_rating-listing :
      (l : Listing)
      → get lid m.listings ≡ some l
      → (get_ratings lid after ≡ get_ratings lid m ++ rating ∷ [])
        × (get lid after.listings
            ≡ some (record l {
              rating_avg = record {
                sum = sum_scores (get_ratings lid m) + clamp_score score;
                count = length (get_ratings lid m) + 1;
              };
              rating_count = length (get_ratings lid m) + 1;
            }))
        × (1 ≤ clamp_score score)
        × (clamp_score score ≤ 5)
  unfolding create_rating
  create_rating-listing l at = (
    get_ratings-create_self,
    get-rate_self lid (get_ratings lid m ++ rating ∷ []) m.listings at
        ∙ ground (
          arith,
          sum_scores-append (get_ratings lid m) rating,
          length-append (get_ratings lid m) (rating ∷ []),
        ),
    ground arith,
    ground arith,
  )

  -- A rating changes neither the listing nor the ratings of any other listing, and no order.
  pub create_rating-others :
      (j : String)
      → lid ≢ j
      → (get j after.listings ≡ get j m.listings)
        × (get_ratings j after ≡ get_ratings j m)
        × (after.orders ≡ m.orders)
  unfolding create_rating get_ratings
  create_rating-others j ne = (
    get-rate_ne lid j _ m.listings ne,
    ground (arith, get-put lid j (get_ratings lid m ++ rating ∷ []) m.ratings, beq_iff lid j),
    refl,
  )
