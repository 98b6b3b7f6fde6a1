-- ===== src/Cpip/Middleware.antt =====
-- `CPIPSecurityMiddleware` of backend/cpip_provider.py: the defence, the rate limit and the headers of
-- a response. Headers are a dictionary by their names in lower case.
use minima_pi_net_os.Prelude.{
  text_eq, str_eq, ℕ, ◌*◌, String, Str, codes, Bool, true, false, ◌||◌, Option, none, some, List,
  [], ◌∷◌, ◌++◌, length, keep, leb, Result, ok, ◌>>=◌, ◌==◌, if◌then◌else◌,
}
use minima_pi_net_os.Json.{Value, str, obj}
use minima_pi_net_os.Json.Number.{decimal}
use minima_pi_net_os.Dict.{Dict, get, put}
use minima_pi_net_os.RateLimiter.{live, timestamps, client_ip}
use minima_pi_net_os.Updater.{fields}
use minima_pi_net_os.Hsts.{HeaderDict, put_all, sts}
use minima_pi_net_os.Cpip.Defense.{Settings, Defense, check_request}
use minima_pi_net_os.Cpip.Defense

-- The class's settings; `second` is the ticks of a second.
pub record Limits : Type 0 where
  pub rate_limit : ℕ
  pub rate_window : ℕ
  pub second : ℕ

abbrev pub window : Limits → ℕ
window l = l.rate_window * l.second

abbrev pub RateCounts : Type 0
RateCounts = Dict String (List ℕ)

unfoldable pub check_rate_limit : Limits → String → ℕ → RateCounts → Bool × RateCounts
check_rate_limit l addr now rate_counts =
    let counts = keep (live (window l) now) (timestamps addr rate_counts) in
    if leb l.rate_limit (length counts)
    then (false, put addr counts rate_counts)
    else (true, put addr (counts ++ now ∷ []) rate_counts)

pub record Request : Type 0 where
  pub client : Option String
  pub scheme : Str
  pub path : Str
  pub method : Str
  pub headers : HeaderDict

pub data Content : Type 0 where
  json : Value → Content
  other : Str → Content

pub record Response : Type 0 where
  pub status_code : ℕ
  pub content : Content
  pub headers : HeaderDict

-- What the class keeps, with that of the defence.
pub record State : Type 0 where
  pub defense : Defense
  pub rate_counts : RateCounts

abbrev pub header_or_empty : Option Str → Str
header_or_empty none = []
header_or_empty (some v) = v

abbrev pub probe_of : Request → Defense.Request
probe_of r = record {
  path = r.path;
  method = r.method;
  user_agent = header_or_empty (get (codes "user-agent") r.headers);
  accept_additions = get (codes "accept-additions") r.headers;
}

-- `JSONResponse`: the content type is a header of its own.
abbrev pub json_response : ℕ → Value → HeaderDict → Response
json_response status_code content headers = record {
  status_code = status_code;
  content = json content;
  headers = put (codes "content-type") (codes "application/json") headers;
}

abbrev pub teapot : Response
teapot =
    json_response 418
      (obj (
        fields (
          (codes "error", str (codes "I'm a teapot"))
          ∷ (codes "detail", str (codes "Probe detected"))
          ∷ [])))
      ((codes "cpip-defense", codes "blocked") ∷ [])

abbrev pub too_many : Limits → Response
too_many l =
    json_response 429 (obj (fields ((codes "error", str (codes "Rate limit exceeded")) ∷ [])))
      ((codes "retry-after", decimal l.rate_window) ∷ [])

unfoldable pub csp_value : Str
csp_value =
    codes
      "default-src 'self'; script-src 'self' 'unsafe-inline' 'unsafe-eval'; style-src 'self' 'unsafe-inline'; img-src 'self' data: blob:; font-src 'self' data:; connect-src 'self' ws: wss: http: https:; object-src 'none'; frame-ancestors 'none'"

-- The headers of every response that passes, in the order in which they are set.
abbrev pub security_headers : Str → HeaderDict
security_headers version =
    (codes "x-content-type-options", codes "nosniff")
    ∷ (codes "x-frame-options", codes "DENY")
    ∷ (codes "x-xss-protection", codes "1; mode=block")
    ∷ (codes "referrer-policy", codes "no-referrer")
    ∷ (codes "content-security-policy", csp_value)
    ∷ (
      codes "permissions-policy",
      codes "camera=(), microphone=(), geolocation=(), payment=(), usb=()",
    )
    ∷ (codes "x-permitted-cross-domain-policies", codes "none")
    ∷ (codes "cross-origin-embedder-policy", codes "require-corp")
    ∷ (codes "cross-origin-opener-policy", codes "same-origin")
    ∷ (codes "cross-origin-resource-policy", codes "same-origin")
    ∷ (codes "cpip-version", version)
    ∷ (codes "cpip-provider", codes "active")
    ∷ []

abbrev forwarded : Option Str → Bool
forwarded none = false
forwarded (some proto) = proto == codes "https"

unfoldable pub is_secure : Request → Bool
is_secure r = r.scheme == codes "https" || forwarded (get (codes "x-forwarded-proto") r.headers)

unfoldable pub dressed : Str → Request → Response → Response
dressed version r response =
    let headers = put_all (security_headers version) response.headers in
    record response {
      headers =
          if is_secure r
          then put sts (codes "max-age=31536000; includeSubDomains; preload") headers
          else headers;
    }

module _ (s : Settings) (l : Limits) (version : Str) where
  -- The rate limit and, where it is kept, what the application answers; `call_next` may raise.
  unfoldable pub limited : ℕ → String → Request → Result Response → State → Result Response × State
  limited now addr r call_next st =
      let (admitted, counts) = check_rate_limit l addr now st.rate_counts in
      let after = record st { rate_counts = counts } in
      if admitted
      then (call_next >>= λ response. ok (dressed version r response), after)
      else (ok (too_many l), after)

  unfoldable pub call : ℕ → Request → Result Response → State → Result Response × State
  call now r call_next st =
      let addr = client_ip r.client in
      let (blocked, defense) = check_request s now addr (probe_of r) st.defense in
      let after = record st { defense = defense } in
      if blocked then (ok teapot, after) else limited now addr r call_next after
