-- ===== src/Watcher/Ends.antt =====
-- How an iteration of backend/cpip_watcher.py, and each handler of its task, moves the watcher.
use minima_pi_net_os.Prelude.{
  ◌+◌, refl, Str, codes, Option, none, some, arith, Exc, attribute_error, Result, ok, raise,
  if-both,
}
use minima_pi_net_os.Prelude.Text.{lstrip_char}
use minima_pi_net_os.Json.{Value, null, bool, int, float, str, arr, obj, is_falsy}
use minima_pi_net_os.Updater.{Disk, member_or_empty}
use minima_pi_net_os.Updater.Application.{Applied, apply_update}
use minima_pi_net_os.Watcher.{
  Event, version_changed, check_complete, update_available, update_starting, update_complete,
  update_failed, Surroundings, Watcher, broadcast_event, send_webhook_notification,
  write_version_file, check_version_file_changed,
}
use minima_pi_net_os.Watcher.Iteration.{
  counted, file_checked, rolled_back, succeeded, failed_with, after_update, auto_updated, announced,
  with_tag, with_name, named, released, latest_release, is_newer, watch_iteration, release_url,
  message_or_unknown,
}
use minima_pi_net_os.Watcher.Moves.{
  Goes, NeverStopped-append, Moves, after_quiet, then_quiet, quiet_then_one,
}

module _ (w : Surroundings) where
  pub broadcast_event-Moves : (e : Event) (s : Watcher) → Goes e → Moves 0 s (broadcast_event w e s)
  unfolding broadcast_event
  broadcast_event-Moves e s g = record {
    running = refl;
    checks = refl;
    spent = omega arith;
    clean = λ h. NeverStopped-append s.broadcast_log e h g;
  }

  still : (s : Watcher) → Moves 0 s s
  still s = record { running = refl; checks = refl; spent = omega arith; clean = λ h. h }

  send_webhook-Moves : (e : Event) (s : Watcher) → Moves 0 s (send_webhook_notification w e s)
  unfolding send_webhook_notification
  send_webhook-Moves e s =
      if-both (Moves 0 s) w.webhook_configured
        (record { running = refl; checks = refl; spent = omega arith; clean = λ h. h }) (still s)

  pub write_version_file-Moves : (v : Str) (s : Watcher) → Moves 0 s (write_version_file w v s)
  unfolding write_version_file
  write_version_file-Moves v s =
      if-both (Moves 0 s) w.version_writable
        (record { running = refl; checks = refl; spent = omega arith; clean = λ h. h }) (still s)

  told-Moves :
      (e : Event) (s : Watcher)
      → Goes e
      → Moves 0 s (send_webhook_notification w e (broadcast_event w e s))
  told-Moves e s g =
      after_quiet (broadcast_event-Moves e s g) (send_webhook-Moves e (broadcast_event w e s))

  file_checked-Moves : (v : Option Str) (s : Watcher) → Moves 0 s (file_checked w v s)
  file_checked-Moves none s = still s
  file_checked-Moves (some v) s =
      let seen : Moves 0 s (record s { last_version = v }) = record {
        running = refl;
        checks = refl;
        spent = omega arith;
        clean = λ h. h;
      } in
      after_quiet seen
        (told-Moves (version_changed v (codes "file")) (record s { last_version = v }) tt)

  rolled_back-Moves : (s : Watcher) → Moves 0 s (rolled_back w s)
  unfolding rolled_back
  rolled_back-Moves s =
      if-both (Moves 0 s) w.rollback_on_fail
        (record { running = refl; checks = refl; spent = omega arith; clean = λ h. h }) (still s)

  succeeded-Moves : (latest : Str) (a : Applied) (s : Watcher) → Moves 1 s (succeeded w latest a s)
  unfolding succeeded
  succeeded-Moves latest a s =
      let counts = record s { update_count = s.update_count + 1; last_version = latest } in
      let first : Moves 1 s counts = record {
        running = refl;
        checks = refl;
        spent = omega arith;
        clean = λ h. h;
      } in
      then_quiet first (
        after_quiet (write_version_file-Moves latest counts) (
          told-Moves (update_complete w.world.cpip_version latest a)
            (write_version_file w latest counts) tt))

  failed_with-Moves :
      (latest message : Str) (s : Watcher) → Moves 1 s (failed_with w latest message s)
  unfolding failed_with
  failed_with-Moves latest message s =
      let counts = record s {
        error_count = s.error_count + 1;
        last_error = message_or_unknown w message;
      } in
      let first : Moves 1 s counts = record {
        running = refl;
        checks = refl;
        spent = omega arith;
        clean = λ h. h;
      } in
      let event = update_failed w.world.cpip_version latest message in
      then_quiet first (
        after_quiet (told-Moves event counts tt)
          (rolled_back-Moves (send_webhook_notification w event (broadcast_event w event counts))))

  -- The exception and what was counted before it are one together.
  unfoldable pub Ends : Watcher → Result (Unit {0}) × Watcher → Type 0
  Ends s (ok u, t) = Moves 1 s t
  Ends s (raise e, t) = Moves 0 s t

  Ends-after : {s t : Watcher} (r : Result (Unit {0}) × Watcher) → Moves 0 s t → Ends t r → Ends s r
  unfolding Ends
  Ends-after (ok u, x) a b = after_quiet a b
  Ends-after (raise e, x) a b = after_quiet a b

  after_update-Ends :
      (latest : Str) (r : Result Applied × Disk) (s : Watcher) → Ends s (after_update w latest r s)
  unfolding Ends
  after_update-Ends latest (raise e, d) s = record {
    running = refl;
    checks = refl;
    spent = omega arith;
    clean = λ h. h;
  }
  after_update-Ends latest (ok a, d) s =
      let updated = record s { disk = d; last_update = w.world.now } in
      let seen : Moves 0 s updated = record {
        running = refl;
        checks = refl;
        spent = omega arith;
        clean = λ h. h;
      } in
      after_quiet seen (
        if-both (Moves 1 updated) a.success (succeeded-Moves latest a updated)
          (failed_with-Moves latest a.message updated))

  auto_updated-Ends : (latest : Str) (s : Watcher) → Ends s (auto_updated w latest s)
  unfolding auto_updated
  auto_updated-Ends latest s =
      let event = update_starting w.world.cpip_version latest in
      Ends-after _ (broadcast_event-Moves event s tt) (
        after_update-Ends latest
          (apply_update w.world (some latest) (broadcast_event w event s).disk)
          (broadcast_event w event s))

  finished : (s t : Watcher) → Moves 0 s t → Ends s (ok tt, t)
  unfolding Ends
  finished s t a = quiet_then_one a

  announced-Ends : (tag latest : Str) (s : Watcher) → Ends s (announced w tag latest s)
  unfolding announced
  announced-Ends tag latest s =
      let event = update_available w.world.cpip_version latest (release_url w tag) in
      let told = send_webhook_notification w event (broadcast_event w event s) in
      let moved = told-Moves event s tt in
      if-both (Ends s) w.auto_update (Ends-after _ moved (auto_updated-Ends latest told))
        (finished s told moved)

  with_tag-Ends : (tag : Str) (s : Watcher) → Ends s (with_tag w tag s)
  unfolding with_tag
  with_tag-Ends tag s =
      let latest = lstrip_char b'v' tag in
      let event = check_complete w.world.cpip_version latest (is_newer w latest) in
      let moved = broadcast_event-Moves event s tt in
      if-both (Ends s) (is_newer w latest)
        (Ends-after _ moved (announced-Ends tag latest (broadcast_event w event s)))
        (finished s (broadcast_event w event s) moved)

  raised : (s : Watcher) (e : Exc) → Ends s (raise e, s)
  unfolding Ends
  raised s e = still s

  with_name-Ends : (v : Value) (s : Watcher) → Ends s (with_name w v s)
  unfolding with_name
  with_name-Ends (str t) s =
      if-both (Ends s) (is_falsy (str t)) (finished s s (still s)) (with_tag-Ends t s)
  with_name-Ends null s =
      if-both (Ends s) (is_falsy null) (finished s s (still s)) (raised s attribute_error)
  with_name-Ends (bool b) s =
      if-both (Ends s) (is_falsy (bool b)) (finished s s (still s)) (raised s attribute_error)
  with_name-Ends (int i) s =
      if-both (Ends s) (is_falsy (int i)) (finished s s (still s)) (raised s attribute_error)
  with_name-Ends (float t) s =
      if-both (Ends s) (is_falsy (float t)) (finished s s (still s)) (raised s attribute_error)
  with_name-Ends (arr xs) s =
      if-both (Ends s) (is_falsy (arr xs)) (finished s s (still s)) (raised s attribute_error)
  with_name-Ends (obj fs) s =
      if-both (Ends s) (is_falsy (obj fs)) (finished s s (still s)) (raised s attribute_error)

  named-Ends : (r : Result Value) (s : Watcher) → Ends s (named w r s)
  named-Ends (raise e) s = raised s e
  named-Ends (ok v) s = with_name-Ends v s

  released-Ends : (release : Option Value) (s : Watcher) → Ends s (released w release s)
  released-Ends none s = finished s s (still s)
  released-Ends (some release) s = named-Ends (member_or_empty (codes "name") release) s

  -- An iteration counts its check, and at most one update or error with it.
  pub watch_iteration-Ends : (s : Watcher) → Ends (counted w s) (watch_iteration w s)
  unfolding watch_iteration
  watch_iteration-Ends s =
      let begun = counted w s in
      let version = check_version_file_changed begun in
      Ends-after _ (file_checked-Moves version begun)
        (released-Ends (latest_release w.world.tags) (file_checked w version begun))
