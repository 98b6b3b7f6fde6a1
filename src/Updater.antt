-- ===== src/Updater.antt =====
-- backend/cpip_updater.py: the comparison of versions and the check for an update. GitHub's answer,
-- the commands' results, the files' permissions and the clock (in whole seconds) are the record
-- `World`; texts are taken as ASCII.
pub mod Application
pub mod Version
pub mod Check
pub mod Apply
use minima_pi_net_os.Prelude.{
  str_eq, nat_eq, ℕ, zero, suc, ◌+◌, ◌*◌, ◌-◌, Str, codes, Bool, true, false, not, ◌&&◌, ◌||◌,
  Option, none, some, List, [], ◌∷◌, ◌++◌, map, keep, leb, ltb, Exc, Result, ok, raise, type_error,
  attribute_error, ◌>>=◌, ◌==◌, if◌then◌else◌,
}
use minima_pi_net_os.Prelude.Int.{ℤ, pos, negsuc, ◌-ℤ◌, ltb_ℤ}
use minima_pi_net_os.Prelude.Text.{contains, lstrip, rstrip, lstrip_char, split, replace}
use minima_pi_net_os.Json.{
  is_falsy, Value, null, bool, int, float, str, arr, obj, Items, nil, cons, Fields, end, field, get,
}
use minima_pi_net_os.Json.Number.{number_from}

abbrev pub is_digit : ℕ → Bool
is_digit c = leb b'0' c && leb c b'9'

-- The numbers of the parts that have a digit.
unfoldable pub numbers_of : List Str → List ℕ
numbers_of [] = []
numbers_of (p ∷ ps) = elim (keep is_digit p) [
  | [] ↦ numbers_of ps
  | d ∷ ds ↦ number_from 0 (d ∷ ds) ∷ numbers_of ps
]

unfoldable pub parse_version : Str → List ℕ
parse_version v = numbers_of (split b'.' (lstrip_char b'v' (rstrip (lstrip v))))

-- `a < b` on tuples
unfoldable pub version_lt : List ℕ → List ℕ → Bool
version_lt [] [] = false
version_lt [] (b ∷ bs) = true
version_lt (a ∷ v) [] = false
version_lt (a ∷ v) (b ∷ bs) = ltb a b || a == b && version_lt v bs

pub record UpdateInfo : Type 0 where
  pub current_version : Str
  pub latest_version : Str
  pub update_available : Bool
  pub release_url : Str
  pub published_at : Str
  pub last_checked : ℕ
  pub last_updated : ℕ
  pub error : Str

-- A command that ran to its end with a return code, or that raised `SubprocessError` or `OSError`.
pub data Command : Type 0 where
  ended : ℕ → Str → Command
  failed : Command

pub record World : Type 0 where
  pub cpip_enabled : Bool
  pub cpip_update_auto : Bool
  pub cpip_update_interval : ℕ
  pub cpip_github_repo : Str
  -- `CPIP_VERSION` of the running process
  pub cpip_version : Str
  pub now : ℕ
  -- the JSON of GitHub's answer, where there is one
  pub tags : Option Value
  pub state_writable : Bool
  pub config_access : Bool
  pub provider_access : Bool
  -- `time.time() - x >= interval` for a float x
  pub float_due : Str → Bool
  pub has_kubectl : Bool
  pub daemonsets : Command
  pub restart_k3s : Command
  pub restart_standalone : Command

-- What the updater keeps on the disk: the state file's JSON where it is there and can be read, and
-- the texts of config.py and cpip_provider.py.
pub record Disk : Type 0 where
  pub state_file : Option Value
  pub config_text : Str
  pub provider_text : Str

abbrev pub fields : List (Str × Value) → Fields
fields [] = end
fields ((k, v) ∷ kvs) = field k v (fields kvs)

unfoldable pub info_to_dict : UpdateInfo → Value
info_to_dict info = obj (
    fields (
      (codes "current_version", str info.current_version)
      ∷ (codes "latest_version", str info.latest_version)
      ∷ (codes "update_available", bool info.update_available)
      ∷ (codes "release_url", str info.release_url)
      ∷ (codes "published_at", str info.published_at)
      ∷ (codes "last_checked", int (pos info.last_checked))
      ∷ (codes "last_updated", int (pos info.last_updated))
      ∷ (codes "error", str info.error)
      ∷ []))

-- `state.get("last_checked", 0)`: a state that is no object has no `get`.
unfoldable pub last_checked_of : Option Value → Result Value
last_checked_of none = ok (int (pos 0))
last_checked_of (some (obj fs)) = elim (get (codes "last_checked") fs) [
  | none ↦ ok (int (pos 0))
  | some v ↦ ok v
]
last_checked_of (some _) = raise attribute_error

-- `member.get(key, "")` of a value
unfoldable pub member_or_empty : Str → Value → Result Value
member_or_empty key (obj fs) = elim (get key fs) [ none ↦ ok (str []) | some v ↦ ok v ]
member_or_empty key _ = raise attribute_error

unfoldable pub tag_name_of : Value → Result Value
tag_name_of (arr (cons tag more)) = member_or_empty (codes "name") tag
tag_name_of (obj fs) = member_or_empty (codes "tag_name") (obj fs)
tag_name_of _ = ok (str [])

module _ (w : World) where
  unfoldable pub load_update_state : Disk → Option Value
  load_update_state d = d.state_file

  unfoldable pub save_update_state : Value → Disk → Disk
  save_update_state v d = if w.state_writable then record d { state_file = some v } else d

  abbrev pub blank : Str → UpdateInfo
  blank current = record {
    current_version = current;
    latest_version = current;
    update_available = false;
    release_url = [];
    published_at = [];
    last_checked = w.now;
    last_updated = 0;
    error = [];
  }

  abbrev pub without_tags : Str → Str → UpdateInfo
  without_tags current error = record (blank current) { error = error }

  abbrev pub with_tag : Str → Str → UpdateInfo
  with_tag current tag_name =
      let latest = lstrip_char b'v' tag_name in
      record (blank current) {
        latest_version = latest;
        release_url =
            codes "https://github.com/"
            ++ (w.cpip_github_repo ++ (codes "/releases/tag/" ++ tag_name));
        update_available = version_lt (parse_version current) (parse_version latest);
      }

  -- `tag_name.lstrip("v")`: only a text has `lstrip`.
  unfoldable pub info_of_tag : Str → Value → Result UpdateInfo
  info_of_tag current (str s) =
      if is_falsy (str s)
      then ok (without_tags current (codes "No tags found in GitHub response"))
      else ok (with_tag current s)
  info_of_tag current v =
      if is_falsy v
      then ok (without_tags current (codes "No tags found in GitHub response"))
      else raise attribute_error

  unfoldable pub info_of : Str → Option Value → Result UpdateInfo
  info_of current none = ok (without_tags current (codes "Failed to reach GitHub API"))
  info_of current (some tags) = tag_name_of tags >>= λ name. info_of_tag current name

  abbrev pub saved : Result UpdateInfo → Disk → Result UpdateInfo × Disk
  saved (raise e) d = (raise e, d)
  saved (ok info) d = (ok info, save_update_state (info_to_dict info) d)

  unfoldable pub check_for_update : Option Str → Disk → Result UpdateInfo × Disk
  check_for_update none d = saved (info_of w.cpip_version w.tags) d
  check_for_update (some current) d = saved (info_of current w.tags) d
