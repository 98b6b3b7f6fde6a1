-- ===== src/Tests/Web.antt =====
-- backend/routes/files.py and backend/middleware/hsts.py on concrete requests.
use minima_pi_net_os.Prelude.{
  str_eq, str_beq, nat_eq, ◌≡◌, refl, Str, codes, true, false, List, [], ◌∷◌, keep, any, ok,
}
use minima_pi_net_os.Prelude.Text.{starts_with, split_from}
use minima_pi_net_os.Files.{
  FileSystem, normalized, safe_relative_parts, link_on_way, resolved, safe_resolve, same_path,
  safe_resolve_delete,
}

-- Everything exists, and nothing is a symbolic link.
abbrev plain_files : FileSystem
plain_files = record { exists = λ p. true; is_symlink = λ p. false; resolve = λ p. p }

-- A link that leads out of the root, to a file that is not there.
abbrev dangling : FileSystem
dangling = record {
  exists = λ p. false;
  is_symlink = λ p. true;
  resolve = λ p. codes "etc" ∷ codes "new" ∷ [];
}

abbrev root : List Str
root = codes "srv" ∷ codes "files" ∷ []

parts_found : safe_relative_parts (codes "a/./b") ≡ ok (codes "a" ∷ codes "b" ∷ [])
unfolding safe_relative_parts normalized split_from starts_with keep any str_beq
parts_found = refl

let_through_for_deletion :
    safe_resolve_delete plain_files root (codes "a/./b")
    ≡ ok (codes "srv" ∷ codes "files" ∷ codes "a" ∷ codes "b" ∷ [])
unfolding safe_resolve_delete safe_resolve safe_relative_parts normalized split_from starts_with
    keep any resolved link_on_way same_path str_beq
let_through_for_deletion = refl

no_link : link_on_way dangling root (codes "a" ∷ codes "b" ∷ []) ≡ false
unfolding link_on_way
no_link = refl
