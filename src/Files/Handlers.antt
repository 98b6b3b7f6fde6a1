-- ===== src/Files/Handlers.antt =====
-- The handlers of backend/routes/files.py over a file system that they change. `Os` is what the
-- standard library's paths answer in a state of the file system; a call that fails raises.
use minima_pi_net_os.Prelude.{
  ℕ, Str, codes, Bool, List, [], map, Result, ok, raise, Exc, http, os_error, ◌>>=◌, if◌then◌else◌,
}
use minima_pi_net_os.Json.{Value, str, Fields, get, get_or, is_falsy}
use minima_pi_net_os.Files.{FileSystem, safe_resolve, safe_resolve_delete}

-- `entry.name`, `entry.is_dir()`, and `st_size` and `st_mtime` in milliseconds
pub record Entry : Type 0 where
  pub name : Str
  pub is_dir : Bool
  pub size : ℕ
  pub modified_ms : ℕ

-- An item of the answer; its permissions are always the text "rw-r--r--".
pub record Item : Type 0 where
  pub name : Str
  pub type : Str
  pub size : ℕ
  pub modified : ℕ
  pub permissions : Str

pub record Os (S : Type 0) : Type 0 where
  pub exists : S → List Str → Bool
  pub is_symlink : S → List Str → Bool
  pub resolve : S → List Str → List Str
  pub is_dir : S → List Str → Bool
  pub iterdir : S → List Str → Result (List Entry)
  pub read_text : S → List Str → Result Str
  pub write_text : S → List Str → Value → Result (Unit {0}) × S
  pub unlink : S → List Str → Result (Unit {0}) × S

-- `except OSError`, answered by 500; any other exception leaves the handler.
abbrev pub status_of : Exc → Exc
status_of os_error = http 500
status_of e = e

abbrev pub server_error {ℓ} : {A : Type ℓ} → Result A → Result A
server_error (ok a) = ok a
server_error (raise e) = raise (status_of e)

abbrev pub item : Entry → Item
item e = record {
  name = e.name;
  type = if e.is_dir then codes "dir" else codes "file";
  size = e.size;
  modified = e.modified_ms;
  permissions = codes "rw-r--r--";
}

-- `if not isinstance(requested, str)` of `_safe_relative_parts`
unfoldable pub text_path : Value → Result Str
text_path (str s) = ok s
text_path v = raise (http 400)

module _ {S : Type 0} (os : Os S) (root : List Str) where
  -- What the path checks ask in a state
  abbrev pub view : S → FileSystem
  view s = record { exists = os.exists s; is_symlink = os.is_symlink s; resolve = os.resolve s }

  unfoldable pub list_files : Str → S → Result (List Item)
  list_files path s = server_error (
      safe_resolve (view s) root path >>= λ abs_path.
      os.iterdir s abs_path >>= λ entries. ok (map item entries))

  unfoldable pub read_file : Str → S → Result Str
  read_file path s = server_error (safe_resolve (view s) root path >>= os.read_text s)

  abbrev pub written : Value → S → Result (List Str) → Result (Unit {0}) × S
  written content s (raise e) = (server_error (raise e), s)
  written content s (ok p) =
      let (done, after) = os.write_text s p content in (server_error done, after)

  unfoldable pub write_file : Fields → S → Result (Unit {0}) × S
  write_file body s =
      let file_path = get_or (get (codes "path") body) (str []) in
      let content = get_or (get (codes "content") body) (str []) in
      if is_falsy file_path
      then (raise (http 400), s)
      else written content s (text_path file_path >>= safe_resolve (view s) root)

  abbrev pub unlinked : S → Result (List Str) → Result (Unit {0}) × S
  unlinked s (raise e) = (server_error (raise e), s)
  unlinked s (ok p) =
      if os.is_dir s p
      then (raise (http 400), s)
      else let (done, after) = os.unlink s p in (server_error done, after)

  unfoldable pub delete_file : Str → S → Result (Unit {0}) × S
  delete_file path s = unlinked s (safe_resolve_delete (view s) root path)
