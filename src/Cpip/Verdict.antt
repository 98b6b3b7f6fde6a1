-- ===== src/Cpip/Verdict.antt =====
-- Which requests `ITFDefense.check_request` of backend/cpip_provider.py refuses.
use minima_pi_net_os.Prelude.{
  text_eq, ℕ, ◌+◌, ◌≡◌, refl, ap, String, Str, Bool, true, false, ◌&&◌, ◌||◌, Option, none, some,
  inl, inr, arith, leb, Option-cases, if◌then◌else◌,
}
use minima_pi_net_os.Dict.{get}
use minima_pi_net_os.Cpip.Defense.{
  Settings, Defense, Request, Block, scored, is_given, has_additions, is_loopback,
  hits_scanner_path, detect_tools, probe_check, is_probe, is_blacklisted, judged, check_request,
}

score_verdict :
    (scanner brew tool : Bool)
    → leb 2 (scored scanner 3 + (scored brew 1 + scored tool 2)) ≡ (scanner || tool)
score_verdict true true true = refl
score_verdict true true false = refl
score_verdict true false true = refl
score_verdict true false false = refl
score_verdict false true true = refl
score_verdict false true false = refl
score_verdict false false true = refl
score_verdict false false false = refl

-- The tools or the path of a request make it a probe.
abbrev pub looks_hostile : Str → Str → Bool
looks_hostile path user_agent = hits_scanner_path path || is_given (detect_tools user_agent)

pub probe_check-hostile :
    (s : Settings) (path method user_agent : Str) (additions : Bool)
    → probe_check s path method user_agent additions ≡ (s.enabled && looks_hostile path user_agent)
unfolding probe_check
probe_check-hostile s path method user_agent additions =
    ap (λ b. s.enabled && b) (score_verdict _ _ _)

-- The block on an address holds at `now`.
abbrev pub holds : ℕ → Option Block → Bool
holds now none = false
holds now (some b) = leb now b.expires

abbrev pub is_blocked : ℕ → String → Defense → Bool
is_blocked now addr d = if is_loopback addr then false else holds now (get addr d.blacklist)

pub is_blacklisted-blocked :
    (now : ℕ) (addr : String) (d : Defense) → (is_blacklisted now addr d).0 ≡ is_blocked now addr d
unfolding is_blacklisted
is_blacklisted-blocked now addr d = elim (Option-cases (get addr d.blacklist)) [
  | inl gone ↦ rw gone (ground arith)
  | inr (b, at) ↦ rw at (ground arith)
]

judged-verdict :
    (s : Settings) (now : ℕ) (addr : String) (r : Request) (found : Bool × Defense)
    → (judged s now addr r found).0 ≡ (found.0 || is_probe s r)
judged-verdict s now addr r (true, d) = refl
judged-verdict s now addr r (false, d) = ground arith

-- Where the defence is on, a request is refused exactly if the block on its address has not ended,
-- its path has a scanner's path in it, or its user agent names a penetration tool: the method BREW
-- and the header Accept-Additions, which are scored too, never change the answer. Where the defence
-- is off, no request is refused.
pub check_request-verdict :
    (s : Settings) (now : ℕ) (addr : String) (r : Request) (d : Defense)
    → (check_request s now addr r d).0
      ≡ (s.enabled && (is_blocked now addr d || looks_hostile r.path r.user_agent))
unfolding check_request
check_request-verdict s now addr r d = ground (
  arith,
  judged-verdict s now addr r (is_blacklisted now addr d),
  is_blacklisted-blocked now addr d,
  probe_check-hostile s r.path r.method r.user_agent (has_additions r.accept_additions),
)
