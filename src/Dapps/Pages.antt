-- ===== src/Dapps/Pages.antt =====
-- The manifests, names and pages that an installation of backend/routes/dapps.py writes.
use minima_pi_net_os.Prelude.{
  str_eq, nat_eq, Str, codes, Bool, ◌||◌, Option, none, some, List, [], ◌∷◌, ◌++◌, map, any, String,
  Result, ok, raise, type_error, attribute_error, ◌==◌, if◌then◌else◌,
}
use minima_pi_net_os.Prelude.Text.{lower, lstrip, split, replace}
use minima_pi_net_os.Json.{
  Value, null, str, arr, nil, obj, Fields, end, field, get, get_or, is_falsy,
}
use minima_pi_net_os.Dapps.Entries.{is_id_char}

unfoldable pub html_escape : Str → Str
html_escape s = replace (codes "'") (codes "&#39;") (
    replace (codes "\"") (codes "&quot;") (
      replace (codes ">") (codes "&gt;")
        (replace (codes "<") (codes "&lt;") (replace (codes "&") (codes "&amp;") s))))

abbrev pub member : String → Value → Fields → Value
member key default fs = get_or (get (codes key) fs) default

-- The manifest of the entry that a sideload makes
unfoldable pub kept_manifest : Str → Fields → Fields
kept_manifest dapp_id m = field (codes "id") (str dapp_id) (
    field (codes "name") (member "name" (str dapp_id) m) (
      field (codes "description") (member "description" (str []) m) (
        field (codes "version") (member "version" (str (codes "1.0.0")) m) (
          field (codes "author") (member "author" (str (codes "Unknown")) m) (
            field (codes "kind") (member "kind" (str (codes "typescript")) m) (
              field (codes "icon") (member "icon" null m) (
                field (codes "color") (member "color" null m) (
                  field (codes "entryPoint") (member "entryPoint" (str (codes "index.html")) m) (
                    field (codes "permissions") (member "permissions" (arr nil) m) (
                      field (codes "homepage") (member "homepage" null m) (
                        field (codes "minPinetVersion") (member "minPinetVersion" null m)
                          end)))))))))))

-- The manifest of the entry that is made from a URL
unfoldable pub url_manifest : Str → Str → Str → Bool → Fields
url_manifest dapp_id base_name url is_minidapp = field (codes "id") (str dapp_id) (
    field (codes "name") (str base_name) (
      field (codes "description") (str (codes "Installed from " ++ url)) (
        field (codes "version") (str (codes "1.0.0")) (
          field (codes "author") (str (codes "Unknown")) (
            field (codes "kind")
              (str (if is_minidapp then codes "minidapp" else codes "typescript"))
              (field (codes "entryPoint") (str (codes "index.html"))
                (field (codes "permissions") (arr nil) end)))))))

-- `os.path.basename`
unfoldable pub last_part : Str → List Str → Str
last_part p [] = p
last_part p (q ∷ qs) = last_part q qs

abbrev pub basename : Str → Str
basename path = last_part [] (split b'/' path)

abbrev pub archives : List Str
archives = codes ".zip" ∷ codes ".tar.gz" ∷ codes ".mds.zip" ∷ []

-- `re.sub(r"\.(zip|tar\.gz|mds\.zip)$", "", file_name, flags=re.IGNORECASE)`
unfoldable pub without_archive : Str → Str
without_archive [] = []
without_archive (c ∷ s) =
    let rest = without_archive s in
    if any (λ a. a == lower (c ∷ s)) archives
    then []
    else if any (λ a. a ++ codes "\n" == lower (c ∷ s)) archives
    then codes "\n"
    else c ∷ rest

-- `re.sub(r"[^a-zA-Z0-9._-]", "-", base_name).lower()`
abbrev pub derived_id : Str → Str
derived_id base_name = lower (map (λ c. if is_id_char c then c else b'-') base_name)

-- `url.endswith(suffix)`
unfoldable pub ends_with : Str → Str → Bool
ends_with suffix [] = suffix == []
ends_with suffix (c ∷ s) = suffix == c ∷ s || ends_with suffix s

-- `text.strip()` is empty
abbrev pub is_blank : Str → Bool
is_blank s = lstrip s == []

-- `url if isinstance(url, str) else ""`, of a value that is a text or not
abbrev pub text_of : Option Value → Option Str
text_of (some (str s)) = some s
text_of _ = none

abbrev pub text_or_empty : Option Str → Str
text_or_empty none = []
text_or_empty (some s) = s

-- `manifest and manifest.get("id")`: a truthy manifest that is no dictionary has no `get`, and a truthy
-- identifier that is no text cannot be matched.
unfoldable pub manifest_of : Option Value → Result (Option Fields)
manifest_of none = ok none
manifest_of (some (obj manifest)) = ok (some manifest)
manifest_of (some v) = if is_falsy v then ok none else raise attribute_error

unfoldable pub id_of : Option Value → Result (Option Str)
id_of none = ok none
id_of (some (str dapp_id)) = if dapp_id == [] then ok none else ok (some dapp_id)
id_of (some v) = if is_falsy v then ok none else raise type_error

-- The page of a sideloaded DApp, of its escaped name and URL
unfoldable pub frame_page : Str → Str → Str
frame_page safe_name safe_url =
    codes "<!DOCTYPE html>\n<html>\n<head><meta charset=\"UTF-8\"><title>"
    ++ (safe_name
        ++ (codes "</title></head>\n<body style=\"margin:0;overflow:hidden\">\n<iframe src=\""
            ++ (safe_url
                ++ codes
                    "\" style=\"border:0;width:100vw;height:100vh\" sandbox=\"allow-scripts allow-forms allow-popups\"></iframe>\n</body></html>")))

-- The page of a DApp that is installed from a URL
unfoldable pub url_page : Str → Str → Str
url_page safe_base safe_url_str =
    codes "<!DOCTYPE html>\n<html>\n<head><meta charset=\"UTF-8\"><title>"
    ++ (safe_base
        ++ (codes
              "</title></head>\n<body style=\"margin:0;font-family:sans-serif;background:#0f172a;color:#e2e8f0;display:flex;align-items:center;justify-content:center;height:100vh\">\n<div style=\"text-align:center;max-width:400px\">\n<h1 style=\"font-size:1.5rem\">"
            ++ (safe_base
                ++ (codes
                      "</h1>\n<p style=\"color:#94a3b8;font-size:0.875rem\">DApp installed from: "
                    ++ (safe_url_str ++ codes "</p>\n</div></body></html>")))))
