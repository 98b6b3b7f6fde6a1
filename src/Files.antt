-- ===== src/Files.antt =====
-- The path checks of backend/routes/files.py. A path is the list of its parts; what the file system
-- says of a path is the record `FileSystem`.
pub mod Below
pub mod Handlers
pub mod Stored
use minima_pi_net_os.Prelude.{
  str_eq, nat_eq, ℕ, Str, codes, Bool, true, false, not, ◌&&◌, ◌||◌, List, [], ◌∷◌, ◌++◌, map, keep,
  any, Result, ok, raise, http, ◌>>=◌, ◌==◌, if◌then◌else◌,
}
use minima_pi_net_os.Prelude.Text.{starts_with, split}

pub record FileSystem : Type 0 where
  pub exists : List Str → Bool
  pub is_symlink : List Str → Bool
  pub resolve : List Str → List Str

-- `requested.replace("\\", "/")`
unfoldable pub normalized : Str → Str
normalized [] = []
normalized (c ∷ s) = (if c == b'\\' then b'/' else c) ∷ normalized s

abbrev pub is_part : Str → Bool
is_part p = not (p == [] || p == codes ".")

abbrev pub is_parent : Str → Bool
is_parent p = p == codes ".."

-- `PurePosixPath(normalized)`: absolute where it begins with a slash, and the parts between slashes.
unfoldable pub safe_relative_parts : Str → Result (List Str)
safe_relative_parts requested =
    let path = normalized requested in
    let parts = keep is_part (split b'/' path) in
    if starts_with (codes "/") path
    then raise (http 403)
    else if any is_parent parts
    then raise (http 403)
    else ok parts

-- `p.relative_to(root)` does not raise
unfoldable pub is_below : List Str → List Str → Bool
is_below [] p = true
is_below (r ∷ root) [] = false
is_below (r ∷ root) (c ∷ p) = r == c && is_below root p

unfoldable pub same_path : List Str → List Str → Bool
same_path [] [] = true
same_path (a ∷ p) (b ∷ q) = a == b && same_path p q
same_path _ _ = false

module _ (fs : FileSystem) where
  -- The loop over `parts[:-1]`: whether a directory on the way is a symbolic link.
  unfoldable pub link_on_way : List Str → List Str → Bool
  link_on_way current [] = false
  link_on_way current (part ∷ []) = false
  link_on_way current (part ∷ next ∷ parts) =
      let here = current ++ part ∷ [] in
      fs.exists here && fs.is_symlink here || link_on_way here (next ∷ parts)

  abbrev pub escapes : List Str → List Str → Bool
  escapes root target =
      fs.exists target && fs.is_symlink target && not (is_below root (fs.resolve target))

  unfoldable pub resolved : List Str → List Str → Result (List Str)
  resolved root parts =
      if link_on_way root parts
      then raise (http 403)
      else if escapes root (root ++ parts)
      then raise (http 403)
      else ok (root ++ parts)

  unfoldable pub safe_resolve : List Str → Str → Result (List Str)
  safe_resolve root requested = safe_relative_parts requested >>= λ parts. resolved root parts

  unfoldable pub safe_resolve_delete : List Str → Str → Result (List Str)
  safe_resolve_delete root requested =
      safe_resolve root requested >>= λ p. if same_path p root then raise (http 403) else ok p
