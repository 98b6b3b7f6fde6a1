-- ===== src/Cpip/Defense.antt =====
-- `ITFDefense` of backend/cpip_provider.py: the probes, the blocked addresses and the check of a
-- request.
use minima_pi_net_os.Prelude.{
  text_eq, str_eq, ℕ, ◌+◌, ◌*◌, ◌/◌, min, String, Str, codes, Bool, true, false, not, ◌&&◌, ◌||◌,
  Option, none, some, List, [], ◌∷◌, ◌++◌, map, length, keep, any, take, ltb, leb, ◌==◌,
  if◌then◌else◌,
}
use minima_pi_net_os.Prelude.Text.{contains, lower, upper}
use minima_pi_net_os.Prelude.Sorting.{sort_by}
use minima_pi_net_os.Dict.{Dict, keys, get, put, remove}
use minima_pi_net_os.Dict.Distinct.{remove_all, keys_where}
use minima_pi_net_os.RateLimiter.{live, timestamps}

-- The settings of the environment; `day` is the ticks of 86400 seconds.
pub record Settings : Type 0 where
  pub enabled : Bool
  pub rate_limit : ℕ
  pub rate_window : ℕ
  pub blacklist_ttl : ℕ
  pub max_blacklist : ℕ
  pub day : ℕ

abbrev pub scanner_paths : List Str
scanner_paths = map codes (
    "/admin" ∷ "/wp-admin" ∷ "/wp-login" ∷ "/wp-" ∷ "/.env" ∷ "/phpmyadmin" ∷ "/shell" ∷ "/cmd"
    ∷ "/exec" ∷ "/backdoor" ∷ "/login" ∷ "/setup" ∷ "/install" ∷ "/manager" ∷ "/console"
    ∷ "/xmlrpc.php" ∷ "/.git" ∷ "/config" ∷ "/backup" ∷ "/database" ∷ "/db" ∷ "/sql" ∷ [])

abbrev pub pentest_tools : List Str
pentest_tools = map codes (
    "burp" ∷ "nmap" ∷ "sqlmap" ∷ "nikto" ∷ "gobuster" ∷ "dirb" ∷ "ffuf" ∷ "wfuzz" ∷ "openvas"
    ∷ "nessus" ∷ "masscan" ∷ "zap" ∷ "arachni" ∷ "w3af" ∷ "metasploit" ∷ "acunetix" ∷ "nuclei"
    ∷ "hydra" ∷ "wpscan" ∷ [])

abbrev pub info_tools : List Str
info_tools = map codes ("curl" ∷ "wget" ∷ "python-requests" ∷ "go-http" ∷ "okhttp" ∷ [])

pub record Block : Type 0 where
  pub expires : ℕ
  pub ttl : ℕ

pub record Defense : Type 0 where
  pub blacklist : Dict String Block
  pub probe_counts : Dict String (List ℕ)

abbrev pub is_loopback : String → Bool
is_loopback addr = addr == "127.0.0.1" || (addr == "::1" || addr == "localhost")

-- An entry is dropped when it is looked at after its end.
abbrev pub entry_state : ℕ → String → Option Block → Defense → Bool × Defense
entry_state now addr none d = (false, d)
entry_state now addr (some entry) d =
    if ltb entry.expires now
    then (false, record d { blacklist = remove addr d.blacklist })
    else (true, d)

unfoldable pub is_blacklisted : ℕ → String → Defense → Bool × Defense
is_blacklisted now addr d =
    if is_loopback addr then (false, d) else entry_state now addr (get addr d.blacklist) d

-- `expires` of an item of the dictionary
abbrev pub expiry : String × Block → ℕ
expiry e = e.1.expires

-- The half of the blocks that end first is dropped.
unfoldable pub evict : Dict String Block → Dict String Block
evict d = remove_all (keys (take (length d / 2) (sort_by expiry d))) d

module _ (s : Settings) where
  abbrev pub counts_of : ℕ → String → Defense → List ℕ
  counts_of now addr d = keep (live s.rate_window now) (timestamps addr d.probe_counts) ++ now ∷ []

  abbrev pub ttl_of : List ℕ → ℕ
  ttl_of counts =
      min (if ltb s.rate_limit (length counts) then s.blacklist_ttl * 2 else s.blacklist_ttl) s.day

  abbrev pub bounded : Dict String Block → Dict String Block
  bounded d = if ltb s.max_blacklist (length d) then evict d else d

  abbrev pub block_of : ℕ → ℕ → Block
  block_of now ttl = record { expires = now + ttl; ttl = ttl }

  unfoldable pub blacklist_addr : ℕ → String → Defense → Defense
  blacklist_addr now addr d =
      let counts = counts_of now addr d in
      if is_loopback addr then d else record {
        blacklist = bounded (put addr (block_of now (ttl_of counts)) d.blacklist);
        probe_counts = put addr counts d.probe_counts;
      }

unfoldable pub whitelist_addr : String → Defense → Defense
whitelist_addr addr d = record {
  blacklist = remove addr d.blacklist;
  probe_counts = remove addr d.probe_counts;
}

abbrev pub clear_blacklist : Defense → Defense
clear_blacklist d = record { blacklist = []; probe_counts = [] }

unfoldable pub get_blacklist : ℕ → Defense → List String
get_blacklist now d = keys_where (λ e. ltb now (expiry e)) d.blacklist

-- The order in which the set is gone through does not matter to the callers.
unfoldable pub detect_tools : Str → List Str
detect_tools user_agent = keep (λ tool. contains tool (lower user_agent)) pentest_tools

abbrev first_in : Str → List Str → Option Str
first_in ua [] = none
first_in ua (tool ∷ more) =
    let rest = first_in ua more in if contains tool ua then some tool else rest

unfoldable pub is_info_tool : Str → Option Str
is_info_tool user_agent = first_in (lower user_agent) info_tools

-- `score += n` under a test
abbrev pub scored : Bool → ℕ → ℕ
scored true n = n
scored false n = 0

abbrev pub is_given : List Str → Bool
is_given [] = false
is_given (tool ∷ more) = true

unfoldable pub hits_scanner_path : Str → Bool
hits_scanner_path path = any (λ scanner_path. contains scanner_path (lower path)) scanner_paths

-- What of a request the defence looks at; `accept_additions` is that header where there is one.
pub record Request : Type 0 where
  pub path : Str
  pub method : Str
  pub user_agent : Str
  pub accept_additions : Option Str

-- `bool(headers and headers.get("accept-additions"))`
abbrev pub has_additions : Option Str → Bool
has_additions none = false
has_additions (some []) = false
has_additions (some (c ∷ t)) = true

module _ (s : Settings) where
  unfoldable pub probe_check : Str → Str → Str → Bool → Bool
  probe_check path method user_agent has_accept_additions =
      s.enabled
      && leb 2 (
          scored (hits_scanner_path path) 3
          + (scored (not has_accept_additions && upper method == codes "BREW") 1
              + scored (is_given (detect_tools user_agent)) 2))

  abbrev pub is_probe : Request → Bool
  is_probe r = probe_check r.path r.method r.user_agent (has_additions r.accept_additions)

  abbrev pub judged : ℕ → String → Request → Bool × Defense → Bool × Defense
  judged now addr r (true, d) = (true, d)
  judged now addr r (false, d) =
      if is_probe r then (true, blacklist_addr s now addr d) else (false, d)

  unfoldable pub check_request : ℕ → String → Request → Defense → Bool × Defense
  check_request now addr r d =
      if s.enabled then judged now addr r (is_blacklisted now addr d) else (false, d)
