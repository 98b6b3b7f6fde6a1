-- ===== src/Tests/Updater.antt =====
-- backend/cpip_updater.py in a small world.
use minima_pi_net_os.Prelude.{
  str_eq, str_beq, nat_eq, ◌≡◌, refl, codes, true, false, none, some, [], ◌∷◌, ok,
}
use minima_pi_net_os.Prelude.Text.{contains, starts_with}
use minima_pi_net_os.Json.{Fields, str, arr, obj, nil, cons, end, field, get}
use minima_pi_net_os.Updater.{
  World, Disk, UpdateInfo, ended, failed, parse_version, version_lt, check_for_update, info_of,
  save_update_state, info_to_dict,
}
use minima_pi_net_os.Updater.Application.{config_line}
use minima_pi_net_os.Updater.Version.{dotted}
use minima_pi_net_os.Updater.Check.{check_for_update-tag}

newer : version_lt (5 ∷ 0 ∷ 9 ∷ []) (5 ∷ 0 ∷ 12 ∷ []) ≡ true
unfolding version_lt
newer = refl

abbrev tag : Fields
tag = field (codes "name") (str (b'v' ∷ dotted 5 (0 ∷ 12 ∷ []))) end

abbrev offline : World
offline = record {
  cpip_enabled = true;
  cpip_update_auto = true;
  cpip_update_interval = 86400;
  cpip_github_repo = codes "cpip/cpip";
  cpip_version = codes "5.0.9";
  now = 1000;
  tags = none;
  state_writable = true;
  config_access = true;
  provider_access = true;
  float_due = λ t. true;
  has_kubectl = false;
  daemonsets = failed;
  restart_k3s = failed;
  restart_standalone = ended 0 [];
}

abbrev online : World
online = record offline { tags = some (arr (cons (obj tag) nil)) }

abbrev disk : Disk
disk = record {
  state_file = none;
  config_text = codes "CPIP_VERSION = \"5.0.9\"";
  provider_text = [];
}

tag_named : get (codes "name") tag ≡ some (str (b'v' ∷ dotted 5 (0 ∷ 12 ∷ [])))
unfolding get str_beq
tag_named = refl

check_for_update-tag_example :
    let (r, after) = check_for_update online (some (codes "5.0.9")) disk in
    (info : UpdateInfo) × (r ≡ ok info)
    × (info.latest_version ≡ dotted 5 (0 ∷ 12 ∷ []))
    × (info.update_available ≡ version_lt (parse_version (codes "5.0.9")) (5 ∷ 0 ∷ 12 ∷ []))
    × (info.error ≡ [])
    × (after ≡ save_update_state online (info_to_dict info) disk)
check_for_update-tag_example =
    check_for_update-tag online disk (codes "5.0.9") tag nil 5 (0 ∷ 12 ∷ []) refl tag_named

abbrev silence : UpdateInfo
silence = record {
  current_version = codes "5.0.9";
  latest_version = codes "5.0.9";
  update_available = false;
  release_url = [];
  published_at = [];
  last_checked = 1000;
  last_updated = 0;
  error = codes "Failed to reach GitHub API";
}

silence_found : (check_for_update offline (some (codes "5.0.9")) disk).0 ≡ ok silence
unfolding check_for_update info_of
silence_found = refl

line_there : contains (config_line (codes "5.0.9")) disk.config_text ≡ true
unfolding contains starts_with
line_there = refl
