-- ===== src/Tests/Cpip.antt =====
-- backend/cpip_provider.py on concrete requests, tokens and keys.
use minima_pi_net_os.Prelude.{
  text_eq, str_eq, str_beq, nat_eq, ◌+◌, ◌*◌, ◌<◌, ◌≡◌, refl, Str, codes, String, true, false, not,
  ◌&&◌, ◌||◌, none, some, List, [], ◌∷◌, ◌++◌, keep, any, length, drop, ltb, ok, ◌==◌, arith,
}
use minima_pi_net_os.Prelude.Text.{contains, lower, upper, starts_with, lstrip, rstrip, split_from}
use minima_pi_net_os.Prelude.Int.{ℤ}
use minima_pi_net_os.Json.Number.{decimal}
use minima_pi_net_os.Dict.{get, put}
use minima_pi_net_os.RateLimiter.Trace
use minima_pi_net_os.Encoding.Base64
use minima_pi_net_os.Encoding.Utf8
use minima_pi_net_os.Encoding.Utf8.{is_utf8, is_utf8_from, after_lead}
use minima_pi_net_os.Encoding.IntText.{int_of, digits_from}
use minima_pi_net_os.Cpip.Defense.{
  Settings, Defense, Block, is_loopback, hits_scanner_path, detect_tools, check_request,
  blacklist_addr, evict,
}
use minima_pi_net_os.Cpip.Defense
use minima_pi_net_os.Cpip.Verdict.{is_blocked, looks_hostile, check_request-verdict}
use minima_pi_net_os.Cpip.Blocks.{Op, request, whitelist}
use minima_pi_net_os.Cpip.Evict.{new_block}
use minima_pi_net_os.Cpip.Middleware.{Limits, Request, Response, other, State, check_rate_limit}
use minima_pi_net_os.Cpip.Alike.{middleware_answers}
use minima_pi_net_os.Cpip.Endpoints.{login}
use minima_pi_net_os.Cpip.Token.{
  TokenSettings, expiry_of, is_late, token_raw, secret_or_init, generate, check_parts, verify,
}
use minima_pi_net_os.Cpip.Issued.{AllHex, has_colon, verify-issued}
use minima_pi_net_os.Cpip.Accepted.{verify-signed}
use minima_pi_net_os.Cpip.Cipher.{Aead}

abbrev settings : Settings
settings = record {
  enabled = true;
  rate_limit = 10;
  rate_window = 60;
  blacklist_ttl = 3600;
  max_blacklist = 2;
  day = 86400;
}

abbrev nobody : Defense
nobody = record { blacklist = []; probe_counts = [] }

abbrev nmap : Defense.Request
nmap = record {
  path = codes "/api/health";
  method = codes "GET";
  user_agent = codes "Nmap Scripting Engine";
  accept_additions = none;
}

abbrev brew : Defense.Request
brew = record {
  path = codes "/pot";
  method = codes "BREW";
  user_agent = codes "Mozilla/5.0";
  accept_additions = none;
}

tool_refused : (check_request settings 100 "10.0.0.9" nmap nobody).0 ≡ true
unfolding check_request Defense.is_blacklisted get Defense.probe_check hits_scanner_path
    detect_tools any keep contains lower starts_with Defense.blacklist_addr put str_beq upper
tool_refused = refl

brew_let_through : (check_request settings 100 "10.0.0.9" brew nobody).0 ≡ false
unfolding check_request Defense.is_blacklisted get Defense.probe_check hits_scanner_path
    detect_tools any keep contains lower starts_with str_beq upper
brew_let_through = refl

check_request-verdict_example : (check_request settings 100 "10.0.0.9" nmap nobody).0 ≡ (
    settings.enabled
    && (is_blocked 100 "10.0.0.9" nobody || looks_hostile nmap.path nmap.user_agent))
check_request-verdict_example = check_request-verdict settings 100 "10.0.0.9" nmap nobody

abbrev ops : List Op
ops =
    request 100 "10.0.0.9" nmap
    ∷ request 101 "10.0.0.8" nmap
    ∷ request 102 "10.0.0.7" nmap
    ∷ whitelist "10.0.0.8"
    ∷ request 103 "127.0.0.1" nmap
    ∷ []

-- Two blocks that end late fill the table.
abbrev full_table : Defense
full_table = record {
  blacklist =
      ("10.0.0.1", record { expires = 9000; ttl = 7200 })
      ∷ ("10.0.0.2", record { expires = 9001; ttl = 7200 })
      ∷ [];
  probe_counts = [];
}

later_ends :
    (j : String) (c : Block)
    → get j full_table.blacklist ≡ some c
    → (new_block settings 100 "10.0.0.9" full_table).expires < c.expires
unfolding get keep
later_ends j c h = ground (arith, h)

abbrev limits : Limits
limits = record { rate_limit = 2; rate_window = 60; second = 1 }

abbrev requests : List Trace.Request
requests =
    ("10.0.0.1", 1) ∷ ("10.0.0.1", 2) ∷ ("10.0.0.2", 2) ∷ ("10.0.0.1", 3) ∷ ("10.0.0.1", 61) ∷ []

last_is_admitted : middleware_answers limits [] requests ≡ true ∷ true ∷ true ∷ false ∷ true ∷ []
unfolding middleware_answers check_rate_limit get put keep
last_is_admitted = refl

abbrev login_request : Request
login_request = record {
  client = some "10.0.0.9";
  scheme = codes "https";
  path = login;
  method = codes "POST";
  headers = [];
}

abbrev fine : Response
fine = record { status_code = 200; content = other (codes "ok"); headers = [] }

abbrev quiet : State
quiet = record { defense = nobody; rate_counts = [] }

abbrev token_settings : TokenSettings
token_settings = record { covert_key = codes "k"; token_ttl = 300; second = 1000 }

-- A digest that is the same for every message.
abbrev constant : Str → Str → Str
constant key message = codes "c0ffee"

constant-AllHex : (key message : Str) → AllHex (constant key message)
constant-AllHex key message = (refl, (refl, (refl, (refl, (refl, (refl, tt))))))

name_is_utf8 : is_utf8 (codes "node-7") ≡ true
unfolding is_utf8
name_is_utf8 = refl

verify-issued_example :
    let (token, kept) = generate token_settings constant [] 5000 (codes "node-7") none in
    (verify token_settings constant kept 305000 token (codes "node-7")).0
    ≡ ok (
        not (has_colon (codes "node-7"))
        && (codes "node-7" == codes "node-7"
            && not (ltb (expiry_of token_settings 5000 none * 1000) 305000)))
verify-issued_example =
    verify-issued token_settings constant constant-AllHex [] (codes "node-7") (codes "node-7") 5000
      305000 none name_is_utf8

abbrev token : Str
token = (generate token_settings constant [] 5000 (codes "node-7") none).0

token_accepted : (verify token_settings constant [] 305000 token (codes "node-7")).0 ≡ ok true
unfolding generate verify Base64.decode Base64.encode Base64.letter decimal Utf8.decode check_parts
    split_from str_beq int_of rstrip lstrip digits_from
token_accepted = refl

verify-signed_example :
    (expiry_str : Str) × (expiry : ℤ) × (Base64.decode token
      ≡ ok (
          token_raw token_settings constant
            (secret_or_init token_settings [])
            (codes "node-7")
            expiry_str))
    × (int_of expiry_str ≡ some expiry)
    × (is_late token_settings 305000 expiry ≡ false)
verify-signed_example =
    verify-signed token_settings constant [] 305000 token (codes "node-7") token_accepted

-- A cipher that puts sixteen bytes in front.
abbrev marked : Aead
marked = record {
  encrypt = λ key nonce text. codes "0123456789abcdef" ++ text;
  decrypt = λ key nonce sealed. ok (drop 16 sealed);
}

marked_opens :
    (key nonce text : Str)
    → (marked.decrypt key nonce (marked.encrypt key nonce text) ≡ ok text)
      × (length (marked.encrypt key nonce text) ≡ length text + 16)
marked_opens key nonce text = (refl, omega arith)
