-- ===== src/Updater/Application.antt =====
-- The deployment, `apply_update` and `auto_update_check` of backend/cpip_updater.py.
use minima_pi_net_os.Prelude.{
  str_eq, nat_eq, ℕ, Str, codes, Bool, true, false, not, ◌&&◌, Option, none, some, [], ◌∷◌, ◌++◌,
  ltb, Result, ok, raise, type_error, ◌>>=◌, ◌==◌, if◌then◌else◌,
}
use minima_pi_net_os.Prelude.Int.{pos, ◌-ℤ◌, ltb_ℤ}
use minima_pi_net_os.Prelude.Text.{contains, lstrip_char, replace}
use minima_pi_net_os.Json.{Value, bool, int, float, str, obj}
use minima_pi_net_os.Updater.{
  UpdateInfo, Command, ended, failed, World, Disk, fields, last_checked_of, load_update_state,
  save_update_state, check_for_update,
}

module _ (w : World) where
  abbrev pub says_minima : Command → Bool
  says_minima (ended code out) = contains (codes "minima") out
  says_minima failed = false

  unfoldable pub detect_deployment_mode : Str
  detect_deployment_mode =
      if w.has_kubectl && says_minima w.daemonsets then codes "k3s" else codes "standalone"

  abbrev pub returned_zero : Command → Bool
  returned_zero (ended code out) = code == 0
  returned_zero failed = false

  unfoldable pub restarted : Str → Bool
  restarted mode =
      if mode == codes "k3s"
      then returned_zero w.restart_k3s
      else returned_zero w.restart_standalone

abbrev pub config_line : Str → Str
config_line version = codes "CPIP_VERSION = \"" ++ (version ++ codes "\"")

abbrev pub header_line : Str → Str
header_line version = codes "\"CPIP-Version\"] = \"" ++ (version ++ codes "\"")

-- What `apply_update` answers; a member that the code does not set is `none` or empty.
pub record Applied : Type 0 where
  pub success : Bool
  pub current_version : Str
  pub target_version : Str
  pub deployment_mode : Str
  pub config_updated : Option Bool
  pub provider_updated : Bool
  pub service_restarted : Option Bool
  pub last_updated : Option ℕ
  pub error : Str
  pub message : Str

module _ (w : World) where
  -- The state that is saved after an application, whether or not the restart was made.
  abbrev pub applied_state : Str → Value
  applied_state target = obj (
      fields (
        (codes "current_version", str target)
        ∷ (codes "latest_version", str target)
        ∷ (codes "update_available", bool false)
        ∷ (codes "last_updated", int (pos w.now))
        ∷ (codes "last_checked", int (pos w.now))
        ∷ []))

  unfoldable pub rewrite_config : Str → Disk → Bool × Disk
  rewrite_config target d =
      let old = config_line w.cpip_version in
      if contains old d.config_text
      then (true, record d { config_text = replace old (config_line target) d.config_text })
      else (false, d)

  unfoldable pub rewrite_provider : Str → Disk → Bool × Disk
  rewrite_provider target d =
      let old = header_line w.cpip_version in
      if w.provider_access && contains old d.provider_text
      then (true, record d { provider_text = replace old (header_line target) d.provider_text })
      else (false, d)

  abbrev pub message_of : Str → Bool → Str
  message_of target true =
      codes "CPIP updated from " ++ (w.cpip_version ++ (codes " to " ++ target))
  message_of target false = codes "Version updated in config but service restart failed"

  abbrev pub begun : Str → Applied
  begun target = record {
    success = false;
    current_version = w.cpip_version;
    target_version = target;
    deployment_mode = detect_deployment_mode w;
    config_updated = none;
    provider_updated = false;
    service_restarted = none;
    last_updated = none;
    error = [];
    message = [];
  }

  -- The files, the restart and the saved state, for a version without its leading `v`.
  unfoldable pub apply_files : Str → Disk → Applied × Disk
  apply_files target d =
      let (config_updated, d1) = rewrite_config target d in
      let (provider_updated, d2) = rewrite_provider target d1 in
      let done = restarted w (detect_deployment_mode w) in
      (
        record (begun target) {
          success = done;
          config_updated = some config_updated;
          provider_updated = provider_updated;
          service_restarted = some done;
          last_updated = some w.now;
          message = message_of target done;
        },
        save_update_state w (applied_state target) d2,
      )

  -- Nothing is done where config.py cannot be read and written.
  unfoldable pub apply_to : Str → Disk → Applied × Disk
  apply_to target d =
      if w.config_access
      then apply_files target d
      else (record (begun target) { error = codes "Failed to update config.py" }, d)

  abbrev pub up_to_date : Applied
  up_to_date = record {
    success = true;
    current_version = w.cpip_version;
    target_version = w.cpip_version;
    deployment_mode = [];
    config_updated = none;
    provider_updated = false;
    service_restarted = none;
    last_updated = none;
    error = [];
    message = codes "Already up to date";
  }

  unfoldable pub apply_checked : Result UpdateInfo → Disk → Result Applied × Disk
  apply_checked (raise e) d = (raise e, d)
  apply_checked (ok info) d =
      let (a, after) = apply_to (lstrip_char b'v' info.latest_version) d in
      if info.update_available then (ok a, after) else (ok up_to_date, d)

  unfoldable pub apply_update : Option Str → Disk → Result Applied × Disk
  apply_update none d =
      let (r, checked) = check_for_update w (some w.cpip_version) d in apply_checked r checked
  apply_update (some version) d =
      let (a, after) = apply_to (lstrip_char b'v' version) d in (ok a, after)

  -- Only a number can be taken from the clock's reading.
  unfoldable pub is_due : Value → Result Bool
  is_due (int i) = ok (not (ltb_ℤ (pos w.now -ℤ i) (pos w.cpip_update_interval)))
  is_due (bool true) = ok (not (ltb_ℤ (pos w.now -ℤ pos 1) (pos w.cpip_update_interval)))
  is_due (bool false) = ok (not (ltb (w.now) w.cpip_update_interval))
  is_due (float t) = ok (w.float_due t)
  is_due _ = raise type_error

  unfoldable pub should_auto_check : Disk → Result Bool
  should_auto_check d = last_checked_of (load_update_state w d) >>= λ v. is_due v

  -- What the automatic check answers: nothing, or the check with the update where one was made.
  unfoldable pub auto_checked :
      Result UpdateInfo → Disk → Result (Option (UpdateInfo × Option Applied)) × Disk
  auto_checked (raise e) d = (raise e, d)
  auto_checked (ok info) d =
      let (r, after) = apply_update (some info.latest_version) d in
      if info.update_available
      then (r >>= λ a. ok (some (info, some a)), after)
      else (ok (some (info, none)), d)

  unfoldable pub auto_due :
      Result Bool → Disk → Result (Option (UpdateInfo × Option Applied)) × Disk
  auto_due (raise e) d = (raise e, d)
  auto_due (ok false) d = (ok none, d)
  auto_due (ok true) d = let (r, checked) = check_for_update w none d in auto_checked r checked

  unfoldable pub auto_update_check : Disk → Result (Option (UpdateInfo × Option Applied)) × Disk
  auto_update_check d =
      if w.cpip_enabled && w.cpip_update_auto
      then auto_due (should_auto_check d) d
      else (ok none, d)
