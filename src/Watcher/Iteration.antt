-- ===== src/Watcher/Iteration.antt =====
-- `_watch_iteration` of backend/cpip_watcher.py.
use minima_pi_net_os.Prelude.{
  str_eq, nat_eq, ◌+◌, Str, codes, Bool, Option, none, some, [], ◌∷◌, ◌++◌, attribute_error, Result,
  ok, raise, if◌then◌else◌,
}
use minima_pi_net_os.Prelude.Text.{lstrip_char}
use minima_pi_net_os.Json.{Value, str, arr, cons, is_falsy}
use minima_pi_net_os.Updater.{Disk, member_or_empty, parse_version, version_lt}
use minima_pi_net_os.Updater.Application.{Applied, apply_update}
use minima_pi_net_os.Watcher.{
  version_changed, check_complete, update_available, update_starting, update_complete,
  update_failed, Surroundings, Watcher, broadcast_event, send_webhook_notification,
  write_version_file, check_version_file_changed,
}
use minima_pi_net_os.Watcher.Rollback.{rollback_version}

-- `data[0]` of the answer, where it is a list that is not empty
abbrev pub latest_release : Option Value → Option Value
latest_release (some (arr (cons tag more))) = some tag
latest_release _ = none

module _ (w : Surroundings) where
  abbrev pub counted : Watcher → Watcher
  counted s = record s { check_count = s.check_count + 1; last_check = w.world.now }

  abbrev pub file_checked : Option Str → Watcher → Watcher
  file_checked none s = s
  file_checked (some version) s =
      let event = version_changed version (codes "file") in
      send_webhook_notification w event
        (broadcast_event w event (record s { last_version = version }))

  -- `result.get("message", "unknown error")`
  abbrev pub message_or_unknown : Str → Str
  message_or_unknown [] = codes "unknown error"
  message_or_unknown (c ∷ m) = c ∷ m

  unfoldable pub rolled_back : Watcher → Watcher
  rolled_back s =
      if w.rollback_on_fail
      then record s { disk = rollback_version w.world w.world.cpip_version s.disk }
      else s

  -- What follows on the answer of `apply_update`.
  unfoldable pub succeeded : Str → Applied → Watcher → Watcher
  succeeded latest a s =
      let done = update_complete w.world.cpip_version latest a in
      let kept =
        write_version_file w latest
          (record s { update_count = s.update_count + 1; last_version = latest }) in
      send_webhook_notification w done (broadcast_event w done kept)

  unfoldable pub failed_with : Str → Str → Watcher → Watcher
  failed_with latest message s =
      let event = update_failed w.world.cpip_version latest message in
      rolled_back (
        send_webhook_notification w event (
          broadcast_event w event (record s {
            error_count = s.error_count + 1;
            last_error = message_or_unknown message;
          })))

  abbrev pub after_update : Str → Result Applied × Disk → Watcher → Result (Unit {0}) × Watcher
  after_update latest (raise e, d) s = (raise e, record s { disk = d })
  after_update latest (ok a, d) s =
      let updated = record s { disk = d; last_update = w.world.now } in
      (
        ok tt,
        if a.success then succeeded latest a updated else failed_with latest a.message updated,
      )

  unfoldable pub auto_updated : Str → Watcher → Result (Unit {0}) × Watcher
  auto_updated latest s =
      let starting = broadcast_event w (update_starting w.world.cpip_version latest) s in
      after_update latest (apply_update w.world (some latest) starting.disk) starting

  abbrev pub release_url : Str → Str
  release_url tag =
      codes "https://github.com/" ++ (w.world.cpip_github_repo ++ (codes "/releases/tag/" ++ tag))

  abbrev pub is_newer : Str → Bool
  is_newer latest = version_lt (parse_version w.world.cpip_version) (parse_version latest)

  -- The update is announced, and applied where that is enabled.
  unfoldable pub announced : Str → Str → Watcher → Result (Unit {0}) × Watcher
  announced tag latest s =
      let event = update_available w.world.cpip_version latest (release_url tag) in
      let told = send_webhook_notification w event (broadcast_event w event s) in
      if w.auto_update then auto_updated latest told else (ok tt, told)

  unfoldable pub with_tag : Str → Watcher → Result (Unit {0}) × Watcher
  with_tag tag s =
      let latest = lstrip_char b'v' tag in
      let checked =
        broadcast_event w (check_complete w.world.cpip_version latest (is_newer latest)) s in
      if is_newer latest then announced tag latest checked else (ok tt, checked)

  -- `if not tag: return`; only a text has `lstrip`.
  unfoldable pub with_name : Value → Watcher → Result (Unit {0}) × Watcher
  with_name (str t) s = if is_falsy (str t) then (ok tt, s) else with_tag t s
  with_name v s = if is_falsy v then (ok tt, s) else (raise attribute_error, s)

  abbrev pub named : Result Value → Watcher → Result (Unit {0}) × Watcher
  named (raise e) s = (raise e, s)
  named (ok v) s = with_name v s

  abbrev pub released : Option Value → Watcher → Result (Unit {0}) × Watcher
  released none s = (ok tt, s)
  released (some release) s = named (member_or_empty (codes "name") release) s

  unfoldable pub watch_iteration : Watcher → Result (Unit {0}) × Watcher
  watch_iteration s =
      let begun = counted s in
      released (latest_release w.world.tags) (file_checked (check_version_file_changed begun) begun)
