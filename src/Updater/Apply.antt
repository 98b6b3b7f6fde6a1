-- ===== src/Updater/Apply.antt =====
-- What `apply_update` of backend/cpip_updater.py writes.
use minima_pi_net_os.Prelude.{
  str_eq, ◌≡◌, refl, ap, ◌∙◌, Str, Bool, true, some, ok, if-both, if-true,
}
use minima_pi_net_os.Prelude.Text.{contains, contains-replace, lstrip_char}
use minima_pi_net_os.Updater.{World, Disk, save_update_state}
use minima_pi_net_os.Updater.Application.{
  Applied, config_line, rewrite_config, rewrite_provider, restarted, detect_deployment_mode,
  apply_to, apply_files, apply_update, applied_state,
}

pub rewrite_provider-config :
    (w : World) (target : Str) (d : Disk)
    → (rewrite_provider w target d).1.config_text ≡ d.config_text
unfolding rewrite_provider
rewrite_provider-config w target d =
    if-both (λ (r : Bool × Disk). r.1.config_text ≡ d.config_text) _ refl refl

pub save_update_state-config :
    (w : World) (v : _) (d : Disk) → (save_update_state w v d).config_text ≡ d.config_text
unfolding save_update_state
save_update_state-config w v d =
    if-both (λ (e : Disk). e.config_text ≡ d.config_text) w.state_writable refl refl

rewrite_config-contains :
    (w : World) (target : Str) (d : Disk)
    → contains (config_line w.cpip_version) d.config_text ≡ true
    → (contains (config_line target) (rewrite_config w target d).1.config_text ≡ true)
      × ((rewrite_config w target d).0 ≡ true)
unfolding rewrite_config
rewrite_config-contains w target d there =
    rw there (contains-replace _ _ (config_line target) d.config_text there, refl)

apply_files-config :
    (w : World) (target : Str) (d : Disk)
    → contains (config_line w.cpip_version) d.config_text ≡ true
    → let (a, after) = apply_files w target d in
      (a.success ≡ restarted w (detect_deployment_mode w))
      × (a.config_updated ≡ some true)
      × (a.target_version ≡ target)
      × (contains (config_line target) after.config_text ≡ true)
unfolding apply_files
apply_files-config w target d there =
    let d1 = (rewrite_config w target d).1 in
    let (kept, updated) = rewrite_config-contains w target d there in
    (
      refl,
      ap some updated,
      refl,
      ap (contains (config_line target)) (
            save_update_state-config w (applied_state w target) (rewrite_provider w target d1).1
            ∙ rewrite_provider-config w target d1)
          ∙ kept,
    )

pub apply_to-files :
    (w : World) (target : Str) (d : Disk)
    → w.config_access ≡ true
    → apply_to w target d ≡ apply_files w target d
unfolding apply_to
apply_to-files w target d access = if-true w.config_access _ _ access

-- A version is applied where config.py can be read and written and has the line of the running
-- version: afterwards config.py has the line of the new version, without its leading `v`, and the
-- answer says so; it is a success exactly where the service was restarted.
pub apply_update-config :
    (w : World) (version : Str) (d : Disk)
    → w.config_access ≡ true
    → contains (config_line w.cpip_version) d.config_text ≡ true
    → let (r, after) = apply_update w (some version) d in
      let target = lstrip_char b'v' version in
      (a : Applied) × (r ≡ ok a)
      × (a.success ≡ restarted w (detect_deployment_mode w))
      × (a.config_updated ≡ some true)
      × (a.target_version ≡ target)
      × (contains (config_line target) after.config_text ≡ true)
unfolding apply_update
apply_update-config w version d access there =
    let target = lstrip_char b'v' version in
    let (success, updated, named, has_line) = apply_files-config w target d there in
    rw (apply_to-files w target d access)
      ((apply_files w target d).0, refl, success, updated, named, has_line)
