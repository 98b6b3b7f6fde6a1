-- ===== src/Watcher/Counted.antt =====
-- What an iteration of backend/cpip_watcher.py counts and leaves where GitHub has a newer version.
use minima_pi_net_os.Prelude.{
  str_eq, nat_eq, ℕ, ◌+◌, ◌≡◌, refl, sym, ap, ◌∙◌, Str, codes, true, Option, none, some, List, ◌∷◌,
  ok, if◌then◌else◌, if-both, if-true, if-map,
}
use minima_pi_net_os.Prelude.Text.{lstrip_char}
use minima_pi_net_os.Json.{Value, str, obj, arr, Items, cons, Fields, get, is_falsy}
use minima_pi_net_os.Updater.{Disk, member_or_empty, parse_version, version_lt}
use minima_pi_net_os.Updater.Application.{Applied, apply_update}
use minima_pi_net_os.Updater.Version.{dotted, parse_version-dotted}
use minima_pi_net_os.Watcher.{
  Event, Surroundings, Watcher, update_available, update_starting, check_complete, broadcast_event,
  send_webhook_notification, write_version_file, check_version_file_changed,
}
use minima_pi_net_os.Watcher.Rollback.{rollback_version}
use minima_pi_net_os.Watcher.Iteration.{
  counted, message_or_unknown, file_checked, rolled_back, succeeded, failed_with, after_update,
  auto_updated, announced, with_tag, with_name, named, released, latest_release, is_newer,
  release_url, watch_iteration,
}

-- The counts and the files, which no message touches.
pub record Core : Type 0 where
  pub checks : ℕ
  pub updates : ℕ
  pub errors : ℕ
  pub files : Disk

abbrev pub core : Watcher → Core
core s = record {
  checks = s.check_count;
  updates = s.update_count;
  errors = s.error_count;
  files = s.disk;
}

member_there :
    (key : Str) (fs : Fields) {v : Value}
    → get key fs ≡ some v
    → member_or_empty key (obj fs) ≡ ok v
unfolding member_or_empty
member_there key fs h = rw (h, member_or_empty) refl

module _ (w : Surroundings) where
  broadcast_event-core : (e : Event) (s : Watcher) → core (broadcast_event w e s) ≡ core s
  unfolding broadcast_event
  broadcast_event-core e s = refl

  send_webhook-core : (e : Event) (s : Watcher) → core (send_webhook_notification w e s) ≡ core s
  unfolding send_webhook_notification
  send_webhook-core e s = if-both (λ (t : Watcher). core t ≡ core s) w.webhook_configured refl refl

  write_version_file-core : (v : Str) (s : Watcher) → core (write_version_file w v s) ≡ core s
  unfolding write_version_file
  write_version_file-core v s =
      if-both (λ (t : Watcher). core t ≡ core s) w.version_writable refl refl

  told-core :
      (e : Event) (s : Watcher)
      → core (send_webhook_notification w e (broadcast_event w e s)) ≡ core s
  told-core e s = send_webhook-core e (broadcast_event w e s) ∙ broadcast_event-core e s

  file_checked-core : (v : Option Str) (s : Watcher) → core (file_checked w v s) ≡ core s
  file_checked-core none s = refl
  file_checked-core (some v) s = told-core _ (record s { last_version = v })

  succeeded-core :
      (latest : Str) (a : Applied) (s : Watcher)
      → core (succeeded w latest a s) ≡ record (core s) { updates = s.update_count + 1 }
  unfolding succeeded
  succeeded-core latest a s =
      told-core _ _
      ∙ write_version_file-core latest
          (record s { update_count = s.update_count + 1; last_version = latest })

  abbrev pub files_after_failure : Disk → Disk
  files_after_failure d =
      if w.rollback_on_fail then rollback_version w.world w.world.cpip_version d else d

  rolled_back-core :
      (s : Watcher)
      → core (rolled_back w s) ≡ record (core s) { files = files_after_failure s.disk }
  unfolding rolled_back
  rolled_back-core s =
      if-map core w.rollback_on_fail
        {x = record s { disk = rollback_version w.world w.world.cpip_version s.disk }} {y = s} refl
        refl
      ∙ sym (if-map (λ (d : Disk). record (core s) { files = d }) w.rollback_on_fail refl refl)

  failed_with-core :
      (latest message : Str) (s : Watcher)
      → core (failed_with w latest message s)
        ≡ record (core s) { errors = s.error_count + 1; files = files_after_failure s.disk }
  unfolding failed_with
  failed_with-core latest message s =
      rolled_back-core _
      ∙ ap (λ (c : Core). record c { files = files_after_failure c.files })
          (told-core _ (record s {
            error_count = s.error_count + 1;
            last_error = message_or_unknown w message;
          }))

  -- What an application leaves.
  abbrev pub core_after : Applied → Disk → Core → Core
  core_after a d c =
      if a.success
      then record c { updates = c.updates + 1; files = d }
      else record c { errors = c.errors + 1; files = files_after_failure d }

  after_update-core :
      (latest : Str) (a : Applied) (d : Disk) (s : Watcher)
      → core (after_update w latest (ok a, d) s).1 ≡ core_after a d (core s)
  after_update-core latest a d s =
      let updated = record s { disk = d; last_update = w.world.now } in
      if-map core a.success (succeeded-core latest a updated)
        (failed_with-core latest a.message updated)

  auto_updated-core :
      (latest : Str) (a : Applied) (d : Disk) (s : Watcher)
      → apply_update w.world (some latest) s.disk ≡ (ok a, d)
      → ((auto_updated w latest s).0 ≡ ok tt)
        × (core (auto_updated w latest s).1 ≡ core_after a d (core s))
  unfolding auto_updated broadcast_event
  auto_updated-core latest a d s applied = rw applied (
    refl,
    after_update-core latest a d
        (broadcast_event w (update_starting w.world.cpip_version latest) s),
  )

  module _ (tag : Fields) (more : Items) (n : ℕ) (ns : List ℕ)
      (answered : w.world.tags ≡ some (arr (cons (obj tag) more)))
      (called : get (codes "name") tag ≡ some (str (b'v' ∷ dotted n ns)))
      (newer : version_lt (parse_version w.world.cpip_version) (n ∷ ns) ≡ true)
      (auto : w.auto_update ≡ true) where
    abbrev begun : Watcher → Watcher
    begun s = file_checked w (check_version_file_changed (counted w s)) (counted w s)

    announced-core :
        (t latest : Str) (a : Applied) (d : Disk) (s : Watcher)
        → apply_update w.world (some latest) s.disk ≡ (ok a, d)
        → ((announced w t latest s).0 ≡ ok tt)
          × (core (announced w t latest s).1 ≡ core_after a d (core s))
    unfolding announced
    announced-core t latest a d s applied =
        let event = update_available w.world.cpip_version latest (release_url w t) in
        let same = told-core event s in
        let told = send_webhook_notification w event (broadcast_event w event s) in
        let (fine, left) =
          auto_updated-core latest a d told
            (ap (λ (c : Core). apply_update w.world (some latest) c.files) same ∙ applied) in
        let step : announced w t latest s ≡ auto_updated w latest told =
          if-true w.auto_update _ _ auto in
        (ap (λ x. x.0) step ∙ fine, ap (λ x. core x.1) step ∙ left ∙ ap (core_after a d) same)

    with_tag-core :
        (a : Applied) (d : Disk) (s : Watcher)
        → apply_update w.world (some (dotted n ns)) s.disk ≡ (ok a, d)
        → ((with_tag w (b'v' ∷ dotted n ns) s).0 ≡ ok tt)
          × (core (with_tag w (b'v' ∷ dotted n ns) s).1 ≡ core_after a d (core s))
    unfolding with_tag
    with_tag-core a d s applied =
        let (parsed, bare) = parse_version-dotted n ns in
        let latest = lstrip_char b'v' (b'v' ∷ dotted n ns) in
        let fresh : is_newer w latest ≡ true =
          ap (is_newer w) bare
          ∙ ap (version_lt (parse_version w.world.cpip_version)) parsed
          ∙ newer in
        let checked =
          broadcast_event w (check_complete w.world.cpip_version latest (is_newer w latest)) s in
        let (fine, left) = announced-core (b'v' ∷ dotted n ns) latest a d checked (
          ap (λ v. apply_update w.world (some v) checked.disk) bare
          ∙ unfold broadcast_event in applied) in
        let step : with_tag w (b'v' ∷ dotted n ns) s
            ≡ announced w (b'v' ∷ dotted n ns) latest checked =
          if-true (is_newer w latest) _ _ fresh in
        (
          ap (λ x. x.0) step ∙ fine,
          ap (λ x. core x.1) step ∙ left ∙ ap (core_after a d) (broadcast_event-core _ s),
        )

    -- The tag is found in the answer.
    watch_iteration-tag :
        (s : Watcher) → watch_iteration w s ≡ with_tag w (b'v' ∷ dotted n ns) (begun s)
    unfolding watch_iteration with_name is_falsy
    watch_iteration-tag s =
        ap (λ tags. released w (latest_release tags) (begun s)) answered
        ∙ ap (λ r. named w r (begun s)) (member_there (codes "name") tag called)

    -- GitHub's first tag is `v` and a version that is newer than the running one, and updates are
    -- automatic: whatever was installed before, an iteration ends well, counts a check, and applies
    -- the version; it counts an update and keeps the files of the application where that succeeded,
    -- and counts an error otherwise and rolls config.py back where that is enabled.
    pub watch_iteration-core :
        (a : Applied) (d : Disk) (s : Watcher)
        → apply_update w.world (some (dotted n ns)) s.disk ≡ (ok a, d)
        → let (r, after) = watch_iteration w s in
          (r ≡ ok tt)
          × (core after ≡ core_after a d (record (core s) { checks = s.check_count + 1 }))
    watch_iteration-core a d s applied =
        let same : core (begun s) ≡ record (core s) { checks = s.check_count + 1 } =
          file_checked-core (check_version_file_changed (counted w s)) (counted w s) in
        let (fine, left) =
          with_tag-core a d (begun s)
            (ap (λ (c : Core). apply_update w.world (some (dotted n ns)) c.files) same ∙ applied) in
        (
          ap (λ x. x.0) (watch_iteration-tag s) ∙ fine,
          ap (λ x. core x.1) (watch_iteration-tag s) ∙ left ∙ ap (core_after a d) same,
        )
