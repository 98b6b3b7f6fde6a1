-- ===== src/Cpip/Held.antt =====
-- A block of `ITFDefense` of backend/cpip_provider.py holds until its end.
use minima_pi_net_os.Prelude.{
  text_eq, ℕ, ◌+◌, ◌≤◌, ◌<◌, ◌≡◌, refl, ap, ap₂, ◌∙◌, String, Bool, true, false, ◌&&◌, ◌||◌, Option,
  none, some, length, arith, min, le→leb, if-both, if-true,
}
use minima_pi_net_os.Dict.{get, put, get-put_self, length-put, length-remove-le}
use minima_pi_net_os.Cpip.Defense.{
  Settings, Defense, Request, Block, bounded, block_of, ttl_of, counts_of, is_loopback, is_probe,
  has_additions, is_blacklisted, entry_state, judged, check_request, blacklist_addr,
}
use minima_pi_net_os.Cpip.Verdict.{
  is_blocked, looks_hostile, is_blacklisted-blocked, probe_check-hostile, check_request-verdict,
}

entry_state-fewer :
    (now : ℕ) (addr : String) (found : Option Block) (d : Defense)
    → length (entry_state now addr found d).1.blacklist ≤ length d.blacklist
entry_state-fewer now addr none d = omega arith
entry_state-fewer now addr (some b) d = ground (arith, length-remove-le addr d.blacklist)

is_blacklisted-fewer :
    (now : ℕ) (addr : String) (d : Defense)
    → length (is_blacklisted now addr d).1.blacklist ≤ length d.blacklist
unfolding is_blacklisted
is_blacklisted-fewer now addr d =
    if-both (λ (r : Bool × Defense). length r.1.blacklist ≤ length d.blacklist) (is_loopback addr)
      (omega arith) (entry_state-fewer now addr (get addr d.blacklist) d)

module _ (s : Settings) (now : ℕ) (addr : String) where
  bounded_room : (d : _) → length d ≤ s.max_blacklist → bounded s d ≡ d
  bounded_room d h = ground arith

  blacklist_addr-get :
      (d : Defense)
      → is_loopback addr ≡ false
      → length d.blacklist < s.max_blacklist
      → get addr (blacklist_addr s now addr d).blacklist
        ≡ some (block_of s now (ttl_of s (counts_of s now addr d)))
  unfolding blacklist_addr
  blacklist_addr-get d other room =
      let block = block_of s now (ttl_of s (counts_of s now addr d)) in
      rw other (
        ap (get addr) (
          bounded_room (put addr block d.blacklist)
            (ground (arith, length-put addr block d.blacklist)))
        ∙ get-put_self addr block d.blacklist)

  judged_probe :
      (r : Request) (found : Bool × Defense)
      → found.0 ≡ false
      → is_probe s r ≡ true
      → judged s now addr r found ≡ (true, blacklist_addr s now addr found.1)
  judged_probe r (true, d) blocked probe = absurd (cc)
  judged_probe r (false, d) blocked probe = rw probe

  check_request-blocks :
      (r : Request) (d : Defense)
      → s.enabled ≡ true
      → is_blocked now addr d ≡ false
      → looks_hostile r.path r.user_agent ≡ true
      → check_request s now addr r d
        ≡ (true, blacklist_addr s now addr (is_blacklisted now addr d).1)
  unfolding check_request
  check_request-blocks r d on free hostile =
      let probe : is_probe s r ≡ true =
        probe_check-hostile s r.path r.method r.user_agent (has_additions r.accept_additions)
        ∙ ap₂ (λ a b. a && b) on hostile in
      if-true s.enabled _ _ on
      ∙ judged_probe r (is_blacklisted now addr d) (is_blacklisted-blocked now addr d ∙ free) probe

  blocked_until :
      (d : Defense) (later ttl : ℕ)
      → is_loopback addr ≡ false
      → get addr d.blacklist ≡ some (block_of s now ttl)
      → later ≤ now + ttl
      → is_blocked later addr d ≡ true
  blocked_until d later ttl other at le = rw (other, at) (le→leb later (now + ttl) le)

  -- A request that looks hostile, from an address that is neither blocked nor of the loopback, while
  -- there is room for a block: it is refused, and afterwards every request from that address is
  -- refused for as long as the setting says, a day at most.
  pub check_request-holds :
      (r : Request) (d : Defense)
      → s.enabled ≡ true
      → is_loopback addr ≡ false
      → is_blocked now addr d ≡ false
      → looks_hostile r.path r.user_agent ≡ true
      → length d.blacklist < s.max_blacklist
      → let (refused, after) = check_request s now addr r d in
        (refused ≡ true)
        × ((later : ℕ) (r' : Request)
            → later ≤ now + min s.blacklist_ttl s.day
            → (check_request s later addr r' after).0 ≡ true)
  check_request-holds r d on other free hostile room =
      let found = (is_blacklisted now addr d).1 in
      let ttl = ttl_of s (counts_of s now addr found) in
      let long : min s.blacklist_ttl s.day ≤ ttl = ground arith in
      let at = blacklist_addr-get found other (omega (arith, is_blacklisted-fewer now addr d)) in
      rw (check_request-blocks r d on free hostile) (
        refl,
        λ later r' le.
            check_request-verdict s later addr r' (blacklist_addr s now addr found)
            ∙ ap₂ (λ a b. a && (b || looks_hostile r'.path r'.user_agent)) on
                (blocked_until (blacklist_addr s now addr found) later ttl other at (omega arith)),
      )
