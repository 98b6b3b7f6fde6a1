-- ===== src/Cpip/Served.antt =====
-- What `CPIPSecurityMiddleware` of backend/cpip_provider.py answers.
use minima_pi_net_os.Prelude.{
  text_eq, str_eq, str_beq, nat_eq, ℕ, ◌≡◌, refl, ap, ◌∙◌, String, Str, codes, Bool, true, false,
  some, length, keep, ◌&&◌, ◌||◌, ltb, Result, ok, ◌>>=◌, ◌==◌, if◌then◌else◌,
}
use minima_pi_net_os.Dict.{get, put, has, get-put}
use minima_pi_net_os.Dict.Distinct.{IsDistinct}
use minima_pi_net_os.RateLimiter.{live, timestamps, client_ip}
use minima_pi_net_os.Hsts.{sts, put_all, HeaderDict}
use minima_pi_net_os.Hsts.Headers.{or_else, get-put_all}
use minima_pi_net_os.Cpip.Defense.{Settings, Defense}
use minima_pi_net_os.Cpip.Verdict.{is_blocked, looks_hostile}
use minima_pi_net_os.Cpip.Middleware.{
  Limits, window, Request, Response, State, probe_of, security_headers, is_secure, dressed,
}

security_headers-IsDistinct : (version : Str) → IsDistinct (security_headers version)
unfolding has get str_beq
security_headers-IsDistinct version = (
  refl,
  (refl, (refl, (refl, (refl, (refl, (refl, (refl, (refl, (refl, (refl, (refl, tt))))))))))),
)

-- The value of HSTS, where the request is secure.
abbrev pub sts_value : Str
sts_value = codes "max-age=31536000; includeSubDomains; preload"

pub dressed-headers :
    (version : Str) (r : Request) (response : Response) (name : Str)
    → get name (dressed version r response).headers ≡ (
        if is_secure r && sts == name
        then some sts_value
        else or_else (get name (security_headers version)) (get name response.headers))
unfolding dressed
dressed-headers version r response name = secured (is_secure r)
  where
    headers : HeaderDict
    headers = put_all (security_headers version) response.headers

    secured :
        (secure : Bool)
        → get name (if secure then put sts sts_value headers else headers) ≡ (
            if secure && sts == name
            then some sts_value
            else or_else (get name (security_headers version)) (get name response.headers))
    secured true =
        get-put sts name sts_value headers
        ∙ ap (λ o. if sts == name then some sts_value else o)
            (get-put_all name (security_headers version) response.headers
              (security_headers-IsDistinct version))
    secured false =
        get-put_all name (security_headers version) response.headers
          (security_headers-IsDistinct version)

module _ (s : Settings) (l : Limits) (version : Str) (now : ℕ) (r : Request)
    (call_next : Result Response) (st : State) where
  abbrev addr : String
  addr = client_ip r.client

  abbrev pub is_refused : Bool
  is_refused =
      s.enabled && (is_blocked now addr st.defense || looks_hostile r.path (probe_of r).user_agent)

  -- Fewer requests of the address in the window than the limit.
  abbrev pub has_room : Bool
  has_room = ltb (length (keep (live (window l) now) (timestamps addr st.rate_counts))) l.rate_limit

  -- The application's answer with the middleware's headers.
  abbrev pub passed : Result Response
  passed = call_next >>= λ response. ok (dressed version r response)
