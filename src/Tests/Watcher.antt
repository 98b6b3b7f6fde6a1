-- ===== src/Tests/Watcher.antt =====
-- backend/cpip_watcher.py in a small world.
use minima_pi_net_os.Prelude.{
  str_eq, str_beq, nat_eq, ◌+◌, ◌≡◌, refl, Str, codes, true, false, none, some, keep, [], ◌∷◌, ok,
}
use minima_pi_net_os.Prelude.Text.{starts_with, split_from, lstrip_char, rstrip, lstrip}
use minima_pi_net_os.Json.Number.{number_from}
use minima_pi_net_os.Prelude.TextLaws.{AllNot}
use minima_pi_net_os.Json.{Fields, str, arr, obj, nil, cons, end, field, get}
use minima_pi_net_os.Updater.{World, ended, failed, version_lt, parse_version, numbers_of}
use minima_pi_net_os.Updater.Application.{restarted, detect_deployment_mode}
use minima_pi_net_os.Updater.Version.{dotted}
use minima_pi_net_os.Watcher.{Surroundings, Watcher}
use minima_pi_net_os.Watcher.Restored.{IsConfig, config_of}
use minima_pi_net_os.Watcher.Rollback.{assignment}
use minima_pi_net_os.Watcher.Iteration.{watch_iteration}
use minima_pi_net_os.Watcher.Repeats.{iterations, iterations-updates, iteration_restores}
use minima_pi_net_os.Watcher.Loop.{System, no_task, force_check_now, stop_watcher}

abbrev tag : Fields
tag = field (codes "name") (str (b'v' ∷ dotted 5 (2 ∷ []))) end

abbrev world : World
world = record {
  cpip_enabled = true;
  cpip_update_auto = true;
  cpip_update_interval = 86400;
  cpip_github_repo = codes "cpip/cpip";
  cpip_version = codes "5.1.1";
  now = 1000;
  tags = some (arr (cons (obj tag) nil));
  state_writable = true;
  config_access = true;
  provider_access = true;
  float_due = λ t. true;
  has_kubectl = false;
  daemonsets = failed;
  restart_k3s = failed;
  restart_standalone = ended 0 [];
}

abbrev surroundings : Surroundings
surroundings = record {
  world = world;
  auto_update = true;
  rollback_on_fail = true;
  webhook_configured = false;
  version_writable = true;
  poll_interval = 21600;
  takes = λ c e. true;
}

-- The service does not restart.
abbrev broken : Surroundings
broken = record surroundings { world = record world { restart_standalone = ended 1 [] } }

abbrev before : Str
before = codes "A = 1\n"

abbrev after : Str
after = codes "\nCPIP_ON\n"

config : IsConfig before after
config = record {
  none_before = unfold starts_with assignment in (refl, (refl, (refl, (refl, (refl, (refl, tt))))));
  none_after =
      unfold starts_with assignment in
      (refl, (refl, (refl, (refl, (refl, (refl, (refl, (refl, (refl, tt)))))))));
}

no_quote : AllNot b'"' (codes "5.1.1")
no_quote = (refl, (refl, (refl, (refl, (refl, tt)))))

abbrev begun : Watcher
begun = record {
  running = false;
  last_check = 0;
  last_update = 0;
  last_version = [];
  check_count = 0;
  update_count = 0;
  error_count = 0;
  last_error = [];
  subscribers = 1 ∷ 2 ∷ [];
  disk = record {
    state_file = none;
    config_text = config_of before after config (codes "5.1.1");
    provider_text = [];
  };
  version_file = none;
  broadcast_log = [];
  delivered = [];
  webhooks = [];
}

tag_named : get (codes "name") tag ≡ some (str (b'v' ∷ dotted 5 (2 ∷ [])))
unfolding get str_beq
tag_named = refl

is_newer : version_lt (parse_version (codes "5.1.1")) (5 ∷ 2 ∷ []) ≡ true
unfolding version_lt parse_version numbers_of split_from lstrip_char rstrip lstrip keep number_from
is_newer = refl

starts_again : restarted world (detect_deployment_mode world) ≡ true
unfolding restarted detect_deployment_mode str_beq
starts_again = refl

stays_down : restarted broken.world (detect_deployment_mode broken.world) ≡ false
unfolding restarted detect_deployment_mode str_beq
stays_down = refl

iterations-updates_example :
    ((iterations surroundings tag nil 5
        (2 ∷ [])
        refl
        tag_named
        is_newer
        refl
        refl
        3
        begun).update_count
      ≡ 0 + 3)
    × ((iterations surroundings tag nil 5
          (2 ∷ [])
          refl
          tag_named
          is_newer
          refl
          refl
          3
          begun).check_count
        ≡ 0 + 3)
    × ((iterations surroundings tag nil 5
          (2 ∷ [])
          refl
          tag_named
          is_newer
          refl
          refl
          3
          begun).error_count
        ≡ 0)
iterations-updates_example =
    iterations-updates surroundings tag nil 5 (2 ∷ []) refl tag_named is_newer refl refl 3 begun
      starts_again

iteration_restores_example :
    let (r, left) = watch_iteration broken begun in
    (r ≡ ok tt)
    × (left.disk.config_text ≡ begun.disk.config_text)
    × (left.update_count ≡ 0)
    × (left.error_count ≡ 0 + 1)
iteration_restores_example =
    iteration_restores broken tag nil 5 (2 ∷ []) refl tag_named is_newer refl refl before after
      config no_quote begun stays_down refl refl

abbrev at_rest : System
at_rest = record { watcher = begun; task = no_task }

abbrev forced_twice : System
forced_twice =
    let once = record at_rest { watcher = (force_check_now surroundings begun).1 } in
    stop_watcher broken (record once { watcher = (force_check_now broken once.watcher).1 })
