-- ===== src/Dapps/Entries.antt =====
-- The entries of the registry of backend/routes/dapps.py and their identifiers.
use minima_pi_net_os.Prelude.{
  str_eq, nat_eq, ℕ, Str, codes, Bool, false, not, ◌&&◌, ◌||◌, Option, none, some, List, [], ◌∷◌,
  length, any, leb, Result, ◌==◌, if◌then◌else◌,
}
use minima_pi_net_os.Json.{Value, str, Fields, get}
use minima_pi_net_os.Prelude.Text.{is_alnum, without_newline}

-- `parsed.scheme` and `parsed.path`
pub record Url : Type 0 where
  pub scheme : Str
  pub path : Str

pub record Host : Type 0 where
  pub root_realpath : List Str
  pub realpath : List Str → List Str
  pub exists : List Str → Bool
  pub is_dir : List Str → Bool
  pub mkdtemp : List Str
  pub urlparse : Str → Result Url
  pub dumps : Fields → Str
  pub py_str : Value → Str
  pub now : Str

-- An entry of the registry, without its status, which is "installed". The path is none where it is
-- missing or empty.
pub record Dapp : Type 0 where
  pub manifest : Fields
  pub install_path : Option (List Str)
  pub installed_at : Str
  pub updated_at : Str

-- The registry's file and the files that installations have written.
pub record Disk : Type 0 where
  pub registry : List Dapp
  pub files : List (List Str × Str)

abbrev pub is_id_char : ℕ → Bool
is_id_char c = is_alnum c || (c == b'.' || (c == b'_' || c == b'-'))

-- `^[a-zA-Z0-9][a-zA-Z0-9._-]{1,127}`, to the end of the text
unfoldable pub matches_id : Str → Bool
matches_id [] = false
matches_id (c ∷ s) =
    is_alnum c && (leb 1 (length s) && leb (length s) 127 && not (any (λ d. not (is_id_char d)) s))

unfoldable pub is_dapp_id : Str → Bool
is_dapp_id s = matches_id (without_newline s)

-- `d.get("manifest", {}).get("id") == dapp_id`
unfoldable pub has_id : Str → Dapp → Bool
has_id dapp_id d = elim (get (codes "id") d.manifest) [ some (str s) ↦ s == dapp_id | _ ↦ false ]

unfoldable pub first_with : Str → List Dapp → Option Dapp
first_with dapp_id [] = none
first_with dapp_id (d ∷ ds) = if has_id dapp_id d then some d else first_with dapp_id ds

-- `registry.pop(idx)` of the first entry with the identifier
unfoldable pub drop_first : Str → List Dapp → List Dapp
drop_first dapp_id [] = []
drop_first dapp_id (d ∷ ds) =
    let rest = drop_first dapp_id ds in if has_id dapp_id d then ds else d ∷ rest
