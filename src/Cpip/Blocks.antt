-- ===== src/Cpip/Blocks.antt =====
-- What the blocked addresses of `ITFDefense` of backend/cpip_provider.py keep, over every sequence of
-- requests and of calls by the operator.
use minima_pi_net_os.Prelude.{
  text_eq, ℕ, ◌/◌, ◌≤◌, ◌<◌, ◌≡◌, String, true, none, List, [], ◌∷◌, length, arith,
}
use minima_pi_net_os.Prelude.Sorting.{sort_by, length-sort_by, Elem-of-sort_by}
use minima_pi_net_os.Dict.{Dict, get, AllValues}
use minima_pi_net_os.Dict.Distinct.{length-remove_all-le}
use minima_pi_net_os.Dict.Elements.{length-remove_all-lt}
use minima_pi_net_os.Cpip.Defense.{
  Settings, Defense, Request, Block, expiry, evict, is_loopback, check_request, whitelist_addr,
  clear_blacklist,
}

pub length-evict-lt : (d : Dict String Block) → 2 ≤ length d → length (evict d) < length d
unfolding evict
length-evict-lt d h =
    length-remove_all-lt (length d / 2) (sort_by expiry d) d (omega arith)
      (omega (arith, length-sort_by expiry d)) (λ x m. Elem-of-sort_by expiry x d m)

pub length-evict-le : (d : Dict String Block) → length (evict d) ≤ length d
unfolding evict
length-evict-le d = length-remove_all-le _ d

-- No entry for the key, said in a form that every operation keeps.
abbrev Lacks : String → Dict String Block → Type 0
Lacks k d = get k d ≡ none

module _ (s : Settings) where
  -- At most as many blocks as the settings allow, each of at most a day, and none on the loopback
  -- addresses.
  pub record IsBounded (d : Defense) : Type 0 where
    pub few : length d.blacklist ≤ s.max_blacklist
    pub brief : AllValues (λ b. b.ttl ≤ s.day) d.blacklist
    pub local : (addr : String) → is_loopback addr ≡ true → Lacks addr d.blacklist

-- What changes the defence: a request at a time, and the operator's two calls.
pub data Op : Type 0 where
  request : ℕ → String → Request → Op
  whitelist : String → Op
  clear : Op

abbrev pub empty : Defense
empty = record { blacklist = []; probe_counts = [] }

module _ (s : Settings) where
  unfoldable pub run : List Op → Defense → Defense
  run [] d = d
  run (request now addr r ∷ ops) d = run ops (check_request s now addr r d).1
  run (whitelist addr ∷ ops) d = run ops (whitelist_addr addr d)
  run (clear ∷ ops) d = run ops (clear_blacklist d)
