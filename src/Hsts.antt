-- ===== src/Hsts.antt =====
-- backend/middleware/hsts.py: the headers that the middleware sets on every response. Headers are a
-- dictionary by their names in lower case, as Starlette's `MutableHeaders` compares them.
pub mod Headers
use minima_pi_net_os.Prelude.{
  str_eq, ℕ, Str, codes, Bool, true, false, ◌||◌, Option, none, some, List, [], ◌∷◌, ◌++◌, ◌==◌,
  if◌then◌else◌,
}
use minima_pi_net_os.Json.Number.{decimal}
use minima_pi_net_os.Dict.{Dict, get, put}

pub record HstsMiddleware : Type 0 where
  pub hsts_max_age : ℕ
  pub hsts_include_subdomains : Bool
  pub hsts_preload : Bool

-- The arguments that are not given.
abbrev pub default : HstsMiddleware
default = record { hsts_max_age = 31536000; hsts_include_subdomains = true; hsts_preload = true }

-- `"; ".join(parts)` of parts of which the first is there
unfoldable pub build_hsts_value : HstsMiddleware → Str
build_hsts_value m =
    codes "max-age="
    ++ (decimal m.hsts_max_age
        ++ ((if m.hsts_include_subdomains then codes "; includeSubDomains" else [])
            ++ (if m.hsts_preload then codes "; preload" else [])))

unfoldable pub csp_value : Str
csp_value =
    codes
      "default-src 'self'; script-src 'self' 'unsafe-inline' 'unsafe-eval'; style-src 'self' 'unsafe-inline'; img-src 'self' data: blob:; font-src 'self' data:; connect-src 'self' ws: wss: http: https:; media-src 'self' blob:; object-src 'none'; frame-ancestors 'none'; base-uri 'self'; form-action 'self'"

unfoldable pub permissions_value : Str
permissions_value =
    codes
      "camera=(), microphone=(), geolocation=(), payment=(), usb=(), magnetometer=(), gyroscope=(), accelerometer=(), autoplay=(), fullscreen=(self), picture-in-picture=(self)"

abbrev pub HeaderDict : Type 0
HeaderDict = Dict Str Str

pub record Request : Type 0 where
  pub scheme : Str
  pub headers : HeaderDict

abbrev header_is : Str → Str → HeaderDict → Bool
header_is name value headers = elim (get name headers) [ none ↦ false | some v ↦ v == value ]

unfoldable pub is_secure : Request → Bool
is_secure r =
    r.scheme == codes "https"
    || (header_is (codes "x-forwarded-proto") (codes "https") r.headers
        || header_is (codes "x-forwarded-ssl") (codes "on") r.headers)

-- The headers of every response, in the order in which they are set.
abbrev pub always : HeaderDict
always =
    (codes "content-security-policy", csp_value)
    ∷ (codes "permissions-policy", permissions_value)
    ∷ (codes "x-content-type-options", codes "nosniff")
    ∷ (codes "x-frame-options", codes "DENY")
    ∷ (codes "x-xss-protection", codes "1; mode=block")
    ∷ (codes "referrer-policy", codes "no-referrer")
    ∷ (codes "x-permitted-cross-domain-policies", codes "none")
    ∷ (codes "cross-origin-embedder-policy", codes "require-corp")
    ∷ (codes "cross-origin-opener-policy", codes "same-origin")
    ∷ (codes "cross-origin-resource-policy", codes "same-origin")
    ∷ []

abbrev pub sts : Str
sts = codes "strict-transport-security"

unfoldable pub put_all : HeaderDict → HeaderDict → HeaderDict
put_all [] headers = headers
put_all ((name, value) ∷ more) headers = put_all more (put name value headers)

-- `response` is what `call_next` returned.
unfoldable pub dispatch : HstsMiddleware → Request → HeaderDict → HeaderDict
dispatch m request response =
    put_all always (if is_secure request then put sts (build_hsts_value m) response else response)
