-- ===== src/Cpip/Evict.antt =====
-- Which blocks `ITFDefense.blacklist_addr` of backend/cpip_provider.py drops where there are too many.
use minima_pi_net_os.Prelude.{
  text_eq, ℕ, suc, ◌/◌, ◌≤◌, ◌<◌, ◌≡◌, refl, ap, ◌∙◌, sym, subst, String, true, false, none, some,
  List, [], ◌∷◌, zero, length, take, drop, inl, inr, arith, ltb, lt→ltb, Bool-cases, Option-cases,
  if◌then◌else◌, ◌==◌, beq_iff,
}
use minima_pi_net_os.Prelude.Sorting.{
  Elem, here, sort_by, length-sort_by, Elem-sort_by, Elem-of-sort_by, Elem-of-take, Elem-cut,
  sort_by-IsSortedBy, take-le-drop,
}
use minima_pi_net_os.Dict.{Dict, keys, get, put, has, length-put, get-put, get-put_self}
use minima_pi_net_os.Dict.Distinct.{IsDistinct, IsDistinct-put, mem, get-remove_all}
use minima_pi_net_os.Dict.Elements.{get-Elem, get_of_Elem, mem_of_Elem, mem-Elem}
use minima_pi_net_os.Cpip.Defense.{
  Settings, Defense, Block, expiry, evict, is_loopback, block_of, ttl_of, counts_of, blacklist_addr,
}
use minima_pi_net_os.Cpip.Verdict.{is_blocked}

module _ (d : Dict String Block) where
  abbrev sorted : List (String × Block)
  sorted = sort_by expiry d

  abbrev dropped : List String
  dropped = keys (take (length d / 2) sorted)

  get-evict : (k : String) → get k (evict d) ≡ (if mem k dropped then none else get k d)
  unfolding evict
  get-evict k = get-remove_all dropped k d

  -- An address whose block stays has it as it was, and stands behind the cut.
  stays :
      (k : String) (b : Block)
      → get k (evict d) ≡ some b
      → (get k d ≡ some b) × Elem (k, b) (drop (length d / 2) sorted)
  stays k b at = elim (Bool-cases (mem k dropped)) [
    | inl cut ↦ let clash : none ≡ some b = sym (rw cut at (get-evict k)) ∙ at in absurd (cc)
    | inr kept ↦
        let before : get k d ≡ some b = sym (rw kept at (get-evict k)) ∙ at in
        let place =
          Elem-cut (length d / 2) sorted (Elem-sort_by expiry (k, b) d (get-Elem k d before)) in
        elim place [
          | inl early ↦ let clash : mem k dropped ≡ true = mem_of_Elem k _ early in absurd (cc)
          | inr late ↦ (before, late)
        ]
  ]

  -- An address that loses its block stood before the cut.
  goes :
      (k : String) (b : Block)
      → IsDistinct d
      → get k d ≡ some b
      → get k (evict d) ≡ none
      → Elem (k, b) (take (length d / 2) sorted)
  goes k b distinct at gone = elim (Bool-cases (mem k dropped)) [
    | inl cut ↦
        let (c, place) = mem-Elem k (take (length d / 2) sorted) cut in
        let there_too =
          get_of_Elem k d distinct
            (Elem-of-sort_by expiry (k, c) d (Elem-of-take _ sorted place)) in
        let same : c ≡ b = cc in subst (λ x. Elem (k, x) (take (length d / 2) sorted)) same place
    | inr kept ↦
        let clash : none ≡ some b = sym gone ∙ (rw kept at (get-evict k)) ∙ at in absurd (cc)
  ]

  -- No block that stays ends before one that goes.
  pub evict-keeps_last :
      (j k : String) (a b : Block)
      → IsDistinct d
      → get j d ≡ some a
      → get j (evict d) ≡ none
      → get k (evict d) ≡ some b
      → (get k d ≡ some b) × (a.expires ≤ b.expires)
  evict-keeps_last j k a b distinct at gone kept =
      let (before, late) = stays k b kept in
      (
        before,
        take-le-drop expiry (length d / 2) sorted (j, a) (k, b) (sort_by-IsSortedBy expiry d)
            (goes j a distinct at gone) late,
      )

  first_of :
      (n : ℕ) (xs : List (String × Block))
      → 1 ≤ n
      → 1 ≤ length xs
      → (x : String × Block) × Elem x (take n xs)
  unfolding take
  first_of zero xs h h' = absurd (omega arith)
  first_of (suc n) [] h h' = absurd (omega arith)
  first_of (suc n) (x ∷ xs) h h' = (x, here refl)

  -- The block that ends first, and alone, goes.
  evict-first :
      (k : String) (b : Block)
      → IsDistinct d
      → get k d ≡ some b
      → 2 ≤ length d
      → ((j : String) (c : Block) → get j d ≡ some c → (j == k) ≡ false → b.expires < c.expires)
      → get k (evict d) ≡ none
  evict-first k b distinct at two first = elim (Option-cases (get k (evict d))) [
    | inl gone ↦ gone
    | inr (c, kept) ↦
        let (before, late) = stays k c kept in
        let ((j, a), early) =
          first_of (length d / 2) sorted (omega arith) (omega (arith, length-sort_by expiry d)) in
        let there_too =
          get_of_Elem j d distinct
            (Elem-of-sort_by expiry (j, a) d (Elem-of-take _ sorted early)) in
        let order =
          take-le-drop expiry (length d / 2) sorted (j, a) (k, c) (sort_by-IsSortedBy expiry d)
            early late in
        let same : b ≡ c = cc in
        elim (Bool-cases (j == k)) [
          | inl this ↦
              let cut : mem k dropped ≡ true =
                subst (λ i. mem i dropped ≡ true) ((beq_iff j k).0 this) (mem_of_Elem j _ early) in
              let clash : none ≡ some c = sym (rw cut at (get-evict k)) ∙ kept in absurd (cc)
          | inr other ↦ absurd (omega (arith, first j a there_too other, ap (λ x. x.expires) same))
        ]
  ]

module _ (s : Settings) (now : ℕ) (addr : String) (d : Defense) where
  abbrev pub new_block : Block
  new_block = block_of s now (ttl_of s (counts_of s now addr d))

  -- The table is full, the address is not in it, and every block in it ends later than the new one
  -- would: the new block is dropped by the clean-up that it causes, so that the address is not
  -- blocked after its probe.
  pub blacklist_addr-lost :
      is_loopback addr ≡ false
      → IsDistinct d.blacklist
      → get addr d.blacklist ≡ none
      → length d.blacklist ≡ s.max_blacklist
      → 1 ≤ s.max_blacklist
      → ((j : String) (c : Block) → get j d.blacklist ≡ some c → new_block.expires < c.expires)
      → is_blocked now addr (blacklist_addr s now addr d) ≡ false
  unfolding blacklist_addr
  blacklist_addr-lost other distinct new full pos later =
      let put_one = put addr new_block d.blacklist in
      let longer : length put_one ≡ suc (length d.blacklist) =
        unfold has in ground (arith, length-put addr new_block d.blacklist) in
      let gone : get addr (evict put_one) ≡ none =
        evict-first put_one addr new_block (IsDistinct-put addr new_block d.blacklist distinct)
          (get-put_self addr new_block d.blacklist) (omega arith)
          (λ j c at ne. later j c (get_other j c at ne)) in
      let over : ltb s.max_blacklist (length put_one) ≡ true = lt→ltb _ _ (omega arith) in
      rw other (rw over (rw gone refl))
    where
      get_other :
          (j : String) (c : Block)
          → get j (put addr new_block d.blacklist) ≡ some c
          → (j == addr) ≡ false
          → get j d.blacklist ≡ some c
      get_other j c at ne =
          ground (arith, get-put addr j new_block d.blacklist, beq_iff j addr, beq_iff addr j)
