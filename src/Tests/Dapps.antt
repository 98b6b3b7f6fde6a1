-- ===== src/Tests/Dapps.antt =====
-- backend/routes/dapps.py on a host without links.
use minima_pi_net_os.Json.{is_falsy, get, Value, str, obj, end, field}
use minima_pi_net_os.Prelude.Text.{starts_with, lstrip, replace_from, split_from, lower}
use minima_pi_net_os.Prelude.{
  keep, str_beq, str_eq, ◌≡◌, refl, Str, codes, true, false, not, Option, none, some, List, [], ◌∷◌,
  ◌++◌, any, ◌==◌, ok, raise, http,
}
use minima_pi_net_os.Files.{normalized, safe_relative_parts, is_below}
use minima_pi_net_os.Dapps.Pages.{
  ends_with, without_archive, html_escape, url_page, url_manifest, last_part, frame_page,
  manifest_of, id_of, kept_manifest,
}
use minima_pi_net_os.Dapps.Handlers.{
  safe_registry_install_dir, create_install_dir, sideload, install_dapp, get_dapp, uninstall_dapp,
  serve_dapp_file,
}
use minima_pi_net_os.Dapps.Entries.{
  drop_first, matches_id, Host, Dapp, Disk, is_dapp_id, has_id, first_with,
}
use minima_pi_net_os.Prelude.Text.{without_newline}
use minima_pi_net_os.Dapps.Registry.{
  step, IsRegistry, Operation, install, uninstall, run, run-IsRegistry,
}
use minima_pi_net_os.Dapps.Serve.{IsUndone, install_dapp-IsUndone, serve_dapp_file-below}

abbrev root : List Str
root = codes "dapps" ∷ []

abbrev dir : List Str
dir = codes "dapps" ∷ codes "dapp-x1" ∷ []

abbrev page : List Str
page = dir ++ codes "index.html" ∷ []

abbrev host : Host
host = record {
  root_realpath = root;
  realpath = λ p. p;
  exists = λ p. true;
  is_dir = λ p. not (any (λ f. f == codes "index.html") p);
  mkdtemp = dir;
  urlparse = λ u. ok (record { scheme = codes "https"; path = codes "/a/Chess.MDS.zip" });
  dumps = λ fs. codes "{}";
  py_str = λ v. codes "Demo";
  now = codes "2026-01-01";
}

abbrev demo : Option Value
demo = some (obj (field (codes "id") (str (codes "demo")) end))

abbrev url : Option Value
url = some (str (codes "https://x/a/Chess.MDS.zip"))

abbrev empty : Disk
empty = record { registry = []; files = [] }

empty-IsRegistry : IsRegistry root empty
empty-IsRegistry = record { sound = tt; apart = tt }

abbrev calls : List Operation
calls =
    install host none demo
    ∷ install host url none
    ∷ install host none demo
    ∷ uninstall host (codes "chess")
    ∷ []

abbrev after : Disk
after = run root (install host none demo ∷ []) empty

newline_is_accepted : is_dapp_id (codes "demo\n") ≡ true
unfolding is_dapp_id matches_id without_newline any
newline_is_accepted = refl

demo_twice : (install_dapp host none demo after).0 ≡ raise (http 409)
unfolding install_dapp manifest_of id_of get str_beq sideload is_dapp_id matches_id without_newline
    any run step create_install_dir is_below has_id kept_manifest
demo_twice = refl

chess_from_url : any (has_id (codes "chess")) (install_dapp host url none empty).1.registry ≡ true
unfolding any install_dapp manifest_of str_beq lstrip is_dapp_id matches_id without_newline lower
    without_archive last_part split_from create_install_dir is_below has_id get url_manifest
    ends_with frame_page html_escape id_of kept_manifest sideload url_page replace_from starts_with
    is_falsy
chess_from_url = refl

parent_is_refused :
    serve_dapp_file host (codes "demo") (codes "../x") after.registry ≡ raise (http 403)
unfolding serve_dapp_file get_dapp is_dapp_id matches_id without_newline any first_with run step
    install_dapp manifest_of id_of get str_beq sideload create_install_dir is_below drop_first
    ends_with frame_page has_id html_escape kept_manifest last_part safe_registry_install_dir
    uninstall_dapp url_manifest url_page without_archive normalized safe_relative_parts keep lower
    lstrip replace_from split_from starts_with is_falsy
parent_is_refused = refl

run-IsRegistry_example : IsRegistry root (run root calls empty)
run-IsRegistry_example = run-IsRegistry root calls empty empty-IsRegistry

install_dapp-IsUndone_example : IsUndone host empty (install_dapp host url none empty)
install_dapp-IsUndone_example = install_dapp-IsUndone host url none empty (λ p. refl)

page_is_served : serve_dapp_file host (codes "demo") (codes "index.html") after.registry ≡ ok page
unfolding serve_dapp_file get_dapp is_dapp_id matches_id without_newline any first_with run step
    install_dapp manifest_of id_of get str_beq sideload create_install_dir is_below drop_first
    ends_with frame_page has_id html_escape kept_manifest last_part safe_registry_install_dir
    uninstall_dapp url_manifest url_page without_archive normalized safe_relative_parts keep lower
    lstrip replace_from split_from starts_with is_falsy
page_is_served = refl

serve_dapp_file-below_example :
    (d : Dapp) × (raw_path : List Str) × (is_dapp_id (codes "demo") ≡ true)
    × (first_with (codes "demo") after.registry ≡ some d)
    × (d.install_path ≡ some raw_path)
    × (is_below (host.realpath raw_path) page ≡ true)
    × (is_below host.root_realpath page ≡ true)
    × (host.exists page ≡ true)
    × (host.is_dir page ≡ false)
serve_dapp_file-below_example =
    serve_dapp_file-below host (codes "demo") (codes "index.html") after.registry page (λ p. refl)
      page_is_served
