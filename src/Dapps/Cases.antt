-- ===== src/Dapps/Cases.antt =====
-- What an installation of backend/routes/dapps.py does: it is refused and changes nothing, or it
-- appends an entry of an accepted and new identifier.
use minima_pi_net_os.Prelude.{
  str_eq, str_beq, ◌≡◌, refl, Str, codes, true, false, not, ◌||◌, Option, none, some, List, any,
  Result, ok, raise, Exc, http, bad_value, ◌==◌, Bool-cases, inl, inr, if-both,
}
use minima_pi_net_os.Json.{Value, str, Fields, get}
use minima_pi_net_os.Files.{is_below}
use minima_pi_net_os.Dapps.Entries.{Host, Url, Dapp, Disk, is_dapp_id, has_id}
use minima_pi_net_os.Dapps.Pages.{
  kept_manifest, url_manifest, id_of, manifest_of, text_of, derived_id, without_archive, basename,
  ends_with, is_blank,
}
use minima_pi_net_os.Dapps.Handlers.{
  placed, create_install_dir, install_as, sideload, from_parsed, install_url, with_id,
  with_manifest, install_dapp,
}

module _ (h : Host) (k : Disk) (Q : Result Dapp × Disk → Type 0)
    (refused : (e : Exc) → Q (raise e, k))
    (done : (i : Str) (manifest : Fields) (files : List Str → List (List Str × Str))
      → get (codes "id") manifest ≡ some (str i)
      → is_dapp_id i ≡ true
      → any (has_id i) k.registry ≡ false
      → is_below h.root_realpath (h.realpath h.mkdtemp) ≡ true
      → Q (placed h manifest files k (ok (h.realpath h.mkdtemp)))) where
  install_as-cases :
      (i : Str) (manifest : Fields) (files : List Str → List (List Str × Str))
      → get (codes "id") manifest ≡ some (str i)
      → Q (install_as h i manifest files k)
  unfolding create_install_dir
  install_as-cases i manifest files named = elim (Bool-cases (is_dapp_id i)) [
    | inr odd ↦ rw odd (refused (http 400))
    | inl valid ↦ elim (Bool-cases (any (has_id i) k.registry)) [
      | inl taken ↦ rw (valid, taken) (refused (http 409))
      | inr free ↦ elim (Bool-cases (is_below h.root_realpath (h.realpath h.mkdtemp))) [
        | inl below ↦ rw (valid, free, below) (done i manifest files named valid free below)
        | inr outside ↦ rw (valid, free, outside, placed) (refused (http 403))
      ]
    ]
  ]

  from_parsed-cases : (url : Str) (r : Result Url) → Q (from_parsed h url r k)
  unfolding url_manifest get str_beq
  from_parsed-cases url (raise e) = refused e
  from_parsed-cases url (ok parsed) =
      let base_name = without_archive (basename parsed.path) in
      let dapp_id = derived_id base_name in
      if-both Q (not (parsed.scheme == codes "http" || parsed.scheme == codes "https"))
        (refused (http 400))
        (install_as-cases dapp_id
          (url_manifest dapp_id base_name url (ends_with (codes ".mds.zip") url)) _ refl)

  install_url-cases : (url : Option Str) → Q (install_url h url k)
  install_url-cases none = refused (http 400)
  install_url-cases (some url) =
      if-both Q (is_blank url) (refused (http 400))
        (from_parsed-cases url (bad_value (h.urlparse url)))

  with_id-cases :
      (url : Option Str) (manifest : Fields) (r : Result (Option Str))
      → Q (with_id h url manifest r k)
  unfolding sideload kept_manifest get str_beq
  with_id-cases url manifest (raise e) = refused e
  with_id-cases url manifest (ok none) = install_url-cases url
  with_id-cases url manifest (ok (some i)) = install_as-cases i (kept_manifest i manifest) _ refl

  with_manifest-cases :
      (url : Option Str) (r : Result (Option Fields)) → Q (with_manifest h url r k)
  with_manifest-cases url (raise e) = refused e
  with_manifest-cases url (ok none) = install_url-cases url
  with_manifest-cases url (ok (some manifest)) =
      with_id-cases url manifest (id_of (get (codes "id") manifest))

  pub install_dapp-cases : (url manifest : Option Value) → Q (install_dapp h url manifest k)
  unfolding install_dapp
  install_dapp-cases url manifest = with_manifest-cases (text_of url) (manifest_of manifest)
