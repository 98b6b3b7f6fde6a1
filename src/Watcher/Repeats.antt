-- ===== src/Watcher/Repeats.antt =====
-- Iterations of backend/cpip_watcher.py, one after another, and the application of
-- backend/cpip_updater.py that each of them makes.
use minima_pi_net_os.Prelude.{
  str_eq, nat_eq, ℕ, zero, suc, ◌+◌, ◌≡◌, refl, sym, ap, ◌∙◌, Str, codes, Bool, true, false, some,
  List, ◌∷◌, arith, ok, if-both, if-true, if-false,
}
use minima_pi_net_os.Prelude.Text.{replace}
use minima_pi_net_os.Prelude.TextLaws.{AllNot}
use minima_pi_net_os.Json.{str, obj, arr, Items, cons, Fields, get}
use minima_pi_net_os.Updater.{World, Disk, parse_version, version_lt}
use minima_pi_net_os.Updater.Application.{
  Applied, apply_update, apply_to, apply_files, applied_state, config_line, rewrite_config,
  rewrite_provider, restarted, detect_deployment_mode,
}
use minima_pi_net_os.Updater.Apply.{
  apply_to-files, rewrite_provider-config, save_update_state-config,
}
use minima_pi_net_os.Updater.Version.{dotted, lstrip_char-dotted, dotted-AllNot}
use minima_pi_net_os.Watcher.{Surroundings, Watcher}
use minima_pi_net_os.Watcher.Rollback.{rollback_version, sub_from}
use minima_pi_net_os.Watcher.Restored.{IsConfig, config_of, replace-config, sub-config}
use minima_pi_net_os.Watcher.Iteration.{watch_iteration}
use minima_pi_net_os.Watcher.Counted.{
  Core, core, core_after, files_after_failure, watch_iteration-core,
}

apply_update-files :
    (w : World) (n : ℕ) (ns : List ℕ) (d : Disk)
    → w.config_access ≡ true
    → apply_update w (some (dotted n ns)) d
      ≡ (ok (apply_files w (dotted n ns) d).0, (apply_files w (dotted n ns) d).1)
unfolding apply_update
apply_update-files w n ns d access =
    ap (λ x. (ok x.0, x.1))
      (ap (λ v. apply_to w v d) (lstrip_char-dotted n ns) ∙ apply_to-files w (dotted n ns) d access)

apply_files-success :
    (w : World) (v : Str) (d : Disk)
    → (apply_files w v d).0.success ≡ restarted w (detect_deployment_mode w)
unfolding apply_files
apply_files-success w v d = refl

module _ (w : Surroundings) (tag : Fields) (more : Items) (n : ℕ) (ns : List ℕ)
    (answered : w.world.tags ≡ some (arr (cons (obj tag) more)))
    (called : get (codes "name") tag ≡ some (str (b'v' ∷ dotted n ns)))
    (newer : version_lt (parse_version w.world.cpip_version) (n ∷ ns) ≡ true)
    (auto : w.auto_update ≡ true) (access : w.world.config_access ≡ true) where
  abbrev pub applied_to : Disk → Applied × Disk
  applied_to d = apply_files w.world (dotted n ns) d

  iteration :
      (s : Watcher)
      → let (r, after) = watch_iteration w s in
        (r ≡ ok tt)
        × (core after
            ≡ core_after w
                (applied_to s.disk).0
                (applied_to s.disk).1
                (record (core s) { checks = s.check_count + 1 }))
  iteration s =
      watch_iteration-core w tag more n ns answered called newer auto (applied_to s.disk).0
        (applied_to s.disk).1 s (apply_update-files w.world n ns s.disk access)

  -- The iterations of the loop, one after another.
  unfoldable pub iterations : ℕ → Watcher → Watcher
  iterations zero s = s
  iterations (suc k) s = iterations k (watch_iteration w s).1

  updated_once :
      (s : Watcher)
      → restarted w.world (detect_deployment_mode w.world) ≡ true
      → core (watch_iteration w s).1 ≡ record {
        checks = s.check_count + 1;
        updates = s.update_count + 1;
        errors = s.error_count;
        files = (applied_to s.disk).1;
      }
  updated_once s up =
      (iteration s).1
      ∙ if-true (applied_to s.disk).0.success _ _
          (apply_files-success w.world (dotted n ns) s.disk ∙ up)

  -- The version that runs is not changed by an update: as long as GitHub has a newer one, config.py can
  -- be written and the service restarts, every iteration applies the same version again. After `k`
  -- iterations from any state there are `k` more checks and `k` more updates, and no error more.
  pub iterations-updates :
      (k : ℕ) (s : Watcher)
      → restarted w.world (detect_deployment_mode w.world) ≡ true
      → ((iterations k s).update_count ≡ s.update_count + k)
        × ((iterations k s).check_count ≡ s.check_count + k)
        × ((iterations k s).error_count ≡ s.error_count)
  unfolding iterations
  iterations-updates zero s up = (omega arith, omega arith, refl)
  iterations-updates (suc k) s up =
      let once = updated_once s up in
      let (updates, checks, errors) = iterations-updates k (watch_iteration w s).1 up in
      (
        updates ∙ ap (λ (c : Core). c.updates + k) once ∙ omega arith,
        checks ∙ ap (λ (c : Core). c.checks + k) once ∙ omega arith,
        errors ∙ ap (λ (c : Core). c.errors) once,
      )

  module _ (before after : Str) (c : IsConfig before after)
      (plain : AllNot b'"' w.world.cpip_version) where
    abbrev pub installed : Str
    installed = config_of before after c w.world.cpip_version

    abbrev back : Str → Str
    back = sub_from (config_line w.world.cpip_version) 0

    back-rewrite_config :
        (d : Disk)
        → d.config_text ≡ installed
        → back (rewrite_config w.world (dotted n ns) d).1.config_text ≡ installed
    unfolding rewrite_config
    back-rewrite_config d same =
        let own = w.world.cpip_version in
        if-both (λ (r : Bool × Disk). back r.1.config_text ≡ installed) _
          (ap (λ t. back (replace (config_line own) (config_line (dotted n ns)) t)) same
            ∙ ap back (replace-config before after c own (dotted n ns))
            ∙ sub-config before after c own (dotted n ns) (dotted-AllNot n ns))
          (ap back same ∙ sub-config before after c own own plain)

    applied-config :
        (d : Disk)
        → (applied_to d).1.config_text ≡ (rewrite_config w.world (dotted n ns) d).1.config_text
    unfolding apply_files
    applied-config d =
        let d1 = (rewrite_config w.world (dotted n ns) d).1 in
        save_update_state-config w.world (applied_state w.world (dotted n ns))
          (rewrite_provider w.world (dotted n ns) d1).1
        ∙ rewrite_provider-config w.world (dotted n ns) d1

    failure-config :
        (d : Disk)
        → w.rollback_on_fail ≡ true
        → d.config_text ≡ installed
        → (files_after_failure w (applied_to d).1).config_text ≡ installed
    unfolding rollback_version
    failure-config d on same =
        ap (λ (e : Disk). e.config_text)
          (if-true w.rollback_on_fail _ _ on ∙ if-true w.world.config_access _ _ access)
        ∙ ap back (applied-config d)
        ∙ back-rewrite_config d same

    -- The service does not restart after a version was applied, and rolling back is enabled: the
    -- iteration ends well and counts an error and no update, and config.py, in which the version is
    -- assigned in one place, is as it was before.
    pub iteration_restores :
        (s : Watcher)
        → restarted w.world (detect_deployment_mode w.world) ≡ false
        → w.rollback_on_fail ≡ true
        → s.disk.config_text ≡ installed
        → let (r, later) = watch_iteration w s in
          (r ≡ ok tt)
          × (later.disk.config_text ≡ s.disk.config_text)
          × (later.update_count ≡ s.update_count)
          × (later.error_count ≡ s.error_count + 1)
    iteration_restores s down on same =
        let (fine, left) = iteration s in
        let failed =
          left
          ∙ if-false (applied_to s.disk).0.success _ _
              (apply_files-success w.world (dotted n ns) s.disk ∙ down) in
        (
          fine,
          ap (λ (k : Core). k.files.config_text) failed ∙ failure-config s.disk on same ∙ sym same,
          ap (λ (k : Core). k.updates) failed,
          ap (λ (k : Core). k.errors) failed,
        )
