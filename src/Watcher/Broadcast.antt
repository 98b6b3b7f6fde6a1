-- ===== src/Watcher/Broadcast.antt =====
-- Who gets a message of backend/cpip_watcher.py, and who stays subscribed.
use minima_pi_net_os.Prelude.{
  nat_eq, ℕ, ◌≡◌, refl, ap, ◌∙◌, Bool, true, not, ◌&&◌, List, [], ◌∷◌, ◌++◌, keep, arith, ◌==◌,
  beq_iff, Bool-cases, inl, inr,
}
use minima_pi_net_os.Dict.Distinct.{mem}
use minima_pi_net_os.Watcher.{Event, Surroundings, Watcher, without, broadcast_event, sent_to}

keep_and : (p q : ℕ → Bool) (xs : List ℕ) → keep q (keep p xs) ≡ keep (λ c. p c && q c) xs
unfolding keep
keep_and p q [] = refl
keep_and p q (x ∷ xs) = ground (arith, keep_and p q xs)

-- Two tests that agree on the members of a list keep the same of it.
keep_same :
    (p q : ℕ → Bool) (xs : List ℕ) → ((c : ℕ) → mem c xs ≡ true → p c ≡ q c) → keep p xs ≡ keep q xs
unfolding keep mem
keep_same p q [] h = refl
keep_same p q (x ∷ xs) h =
    ground (arith, h x (ground (arith, beq_iff x x)), keep_same p q xs (λ c m. h c (ground arith)))

pub mem-keep : (p : ℕ → Bool) (c : ℕ) (xs : List ℕ) → mem c (keep p xs) ≡ (mem c xs && p c)
unfolding mem keep
mem-keep p c [] = refl
mem-keep p c (x ∷ xs) = elim (Bool-cases (x == c)) [
  | inl same ↦ let eq : p x ≡ p c = ap p ((beq_iff x c).0 same) in ground (arith, mem-keep p c xs)
  | inr differs ↦ ground (arith, mem-keep p c xs)
]

keep_all : (xs : List ℕ) → xs ≡ keep (λ c. true) xs
unfolding keep
keep_all [] = refl
keep_all (x ∷ xs) = ap (λ ys. x ∷ ys) (keep_all xs)

without-mem : (dead xs : List ℕ) → without dead xs ≡ keep (λ c. not (mem c dead)) xs
unfolding without mem
without-mem [] xs = keep_all xs
without-mem (d ∷ dead) xs =
    without-mem dead (keep (λ c. not (c == d)) xs)
    ∙ keep_and (λ c. not (c == d)) (λ c. not (mem c dead)) xs
    ∙ keep_same _ _ xs (λ c m. ground (arith, beq_iff c d, beq_iff d c))

-- To take out those that raise is to keep those that take the message.
pub without-keep : (t : ℕ → Bool) (xs : List ℕ) → without (keep (λ c. not (t c)) xs) xs ≡ keep t xs
without-keep t xs =
    without-mem (keep (λ c. not (t c)) xs) xs
    ∙ keep_same _ t xs (λ c m. ground (arith, mem-keep (λ d. not (t d)) c xs, m))

pub broadcast_event-subscribers :
    (w : Surroundings) (e : Event) (s : Watcher)
    → (broadcast_event w e s).subscribers ≡ keep (λ c. w.takes c e) s.subscribers
unfolding broadcast_event
broadcast_event-subscribers w e s = without-keep (λ c. w.takes c e) s.subscribers

-- Two messages, one after the other: the first goes to every subscriber that takes it, in their
-- order, and the second to those of them that take it too; who raised on the first gets nothing
-- more, and who raised on either is no longer subscribed.
pub broadcast_twice :
    (w w' : Surroundings) (e e' : Event) (s : Watcher)
    → let after = broadcast_event w' e' (broadcast_event w e s) in
      let first = keep (λ c. w.takes c e) s.subscribers in
      let second = keep (λ c. w'.takes c e') first in
      (after.delivered ≡ (s.delivered ++ sent_to e first) ++ sent_to e' second)
      × (after.subscribers ≡ second)
unfolding broadcast_event
broadcast_twice w w' e e' s =
    let left = without-keep (λ c. w.takes c e) s.subscribers in
    (
      ap
          (λ xs.
            (s.delivered ++ sent_to e (keep (λ c. w.takes c e) s.subscribers))
            ++ sent_to e' (keep (λ c. w'.takes c e') xs))
          left,
      without-keep (λ c. w'.takes c e') _ ∙ ap (keep (λ c. w'.takes c e')) left,
    )
