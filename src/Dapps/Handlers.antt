-- ===== src/Dapps/Handlers.antt =====
-- The handlers of backend/routes/dapps.py.
use minima_pi_net_os.Prelude.{
  str_eq, nat_eq, Str, codes, not, ◌||◌, Option, none, some, List, [], ◌∷◌, ◌++◌, any, keep, Result,
  ok, raise, http, bad_value, ◌>>=◌, ◌==◌, if◌then◌else◌,
}
use minima_pi_net_os.Json.{Value, str, Fields, get}
use minima_pi_net_os.Files.{is_below, safe_relative_parts}
use minima_pi_net_os.Dapps.Entries.{
  Dapp, Disk, Host, Url, drop_first, first_with, has_id, is_dapp_id,
}
use minima_pi_net_os.Dapps.Pages.{
  basename, derived_id, ends_with, frame_page, html_escape, id_of, is_blank, kept_manifest,
  manifest_of, member, text_of, text_or_empty, url_manifest, url_page, without_archive,
}

module _ (h : Host) where
  unfoldable pub create_install_dir : Result (List Str)
  create_install_dir =
      let candidate = h.realpath h.mkdtemp in
      if is_below h.root_realpath candidate then ok candidate else raise (http 403)

  unfoldable pub safe_registry_install_dir : Dapp → Result (List Str)
  safe_registry_install_dir d = elim d.install_path [
    | none ↦ raise (http 500)
    | some raw_path ↦
        let candidate = h.realpath raw_path in
        if is_below h.root_realpath candidate then ok candidate else raise (http 403)
  ]

  unfoldable pub get_dapp : Str → List Dapp → Result Dapp
  get_dapp dapp_id registry =
      if not (is_dapp_id dapp_id)
      then raise (http 400)
      else elim (first_with dapp_id registry) [ none ↦ raise (http 404) | some d ↦ ok d ]

  -- The entry that an installation appends
  abbrev pub entry : Fields → List Str → Dapp
  entry manifest dapp_dir = record {
    manifest = manifest;
    install_path = some dapp_dir;
    installed_at = h.now;
    updated_at = h.now;
  }

  -- The end of both installations: the directory, its files, the registry.
  abbrev pub placed :
      Fields → (List Str → List (List Str × Str)) → Disk → Result (List Str) → Result Dapp × Disk
  placed manifest files k (raise e) = (raise e, k)
  placed manifest files k (ok dapp_dir) = (
    ok (entry manifest dapp_dir),
    record {
      registry = k.registry ++ entry manifest dapp_dir ∷ [];
      files = k.files ++ files dapp_dir;
    },
  )

  -- Both installations refuse an identifier that is no identifier or is taken.
  abbrev pub install_as :
      Str → Fields → (List Str → List (List Str × Str)) → Disk → Result Dapp × Disk
  install_as dapp_id manifest files k =
      if not (is_dapp_id dapp_id)
      then (raise (http 400), k)
      else if any (has_id dapp_id) k.registry
      then (raise (http 409), k)
      else placed manifest files k create_install_dir

  unfoldable pub sideload : Str → Str → Fields → Disk → Result Dapp × Disk
  sideload entry_url dapp_id manifest k =
      let safe_name = html_escape (h.py_str (member "name" (str (codes "DApp")) manifest)) in
      install_as dapp_id (kept_manifest dapp_id manifest)
        (λ dapp_dir.
          (dapp_dir ++ codes "index.html" ∷ [], frame_page safe_name (html_escape entry_url))
          ∷ (dapp_dir ++ codes "dapp.json" ∷ [], h.dumps manifest)
          ∷ [])
        k

  abbrev pub from_parsed : Str → Result Url → Disk → Result Dapp × Disk
  from_parsed url (raise e) k = (raise e, k)
  from_parsed url (ok parsed) k =
      let base_name = without_archive (basename parsed.path) in
      let dapp_id = derived_id base_name in
      if not (parsed.scheme == codes "http" || parsed.scheme == codes "https")
      then (raise (http 400), k)
      else install_as dapp_id
          (url_manifest dapp_id base_name url (ends_with (codes ".mds.zip") url))
          (λ dapp_dir.
            (
              dapp_dir ++ codes "index.html" ∷ [],
              url_page (html_escape base_name) (html_escape url),
            )
            ∷ [])
          k

  -- `isinstance(url, str) and url.strip()`
  abbrev pub install_url : Option Str → Disk → Result Dapp × Disk
  install_url none k = (raise (http 400), k)
  install_url (some url) k =
      if is_blank url then (raise (http 400), k) else from_parsed url (bad_value (h.urlparse url)) k

  abbrev pub with_id : Option Str → Fields → Result (Option Str) → Disk → Result Dapp × Disk
  with_id url manifest (raise e) k = (raise e, k)
  with_id url manifest (ok none) k = install_url url k
  with_id url manifest (ok (some dapp_id)) k = sideload (text_or_empty url) dapp_id manifest k

  abbrev pub with_manifest : Option Str → Result (Option Fields) → Disk → Result Dapp × Disk
  with_manifest url (raise e) k = (raise e, k)
  with_manifest url (ok none) k = install_url url k
  with_manifest url (ok (some manifest)) k =
      with_id url manifest (id_of (get (codes "id") manifest)) k

  -- The body's `url` and `manifest`
  unfoldable pub install_dapp : Option Value → Option Value → Disk → Result Dapp × Disk
  install_dapp url manifest k = with_manifest (text_of url) (manifest_of manifest) k

  -- `shutil.rmtree` of the directory, where it exists
  abbrev pub removed : Str → Disk → Result (List Str) → Result (Unit {0}) × Disk
  removed dapp_id k (raise e) = (raise e, k)
  removed dapp_id k (ok install_dir) = (
    ok tt,
    record {
      registry = drop_first dapp_id k.registry;
      files =
          if h.exists install_dir
          then keep (λ f. not (is_below install_dir f.0)) k.files
          else k.files;
    },
  )

  unfoldable pub uninstall_dapp : Str → Disk → Result (Unit {0}) × Disk
  uninstall_dapp dapp_id k =
      if not (is_dapp_id dapp_id)
      then (raise (http 400), k)
      else elim (first_with dapp_id k.registry) [
        | none ↦ (raise (http 404), k)
        | some d ↦ removed dapp_id k (safe_registry_install_dir d)
      ]

  abbrev pub target_candidate : List Str → List Str → List Str
  target_candidate install_path [] = install_path ++ codes "index.html" ∷ []
  target_candidate install_path (p ∷ ps) = install_path ++ p ∷ ps

  -- The checks of the file's path behind the directory's
  abbrev pub served_from : List Str → List Str → Result (List Str)
  served_from install_path file_parts =
      let install_realpath = h.realpath install_path in
      let target_realpath = h.realpath (target_candidate install_path file_parts) in
      if not (is_below install_realpath target_realpath)
      then raise (http 403)
      else if not (h.exists target_realpath) || h.is_dir target_realpath
      then raise (http 404)
      else ok target_realpath

  -- The file's path, which `FileResponse` then reads
  unfoldable pub serve_dapp_file : Str → Str → List Dapp → Result (List Str)
  serve_dapp_file dapp_id file_path registry = get_dapp dapp_id registry >>= λ d.
      safe_registry_install_dir d >>= λ install_path.
      safe_relative_parts file_path >>= λ file_parts. served_from install_path file_parts
