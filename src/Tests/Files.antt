-- ===== src/Tests/Files.antt =====
-- The handlers of backend/routes/files.py on a file system that is a dictionary, with one link out of
-- the root that leads to nothing.
use minima_pi_net_os.Prelude.Text.{starts_with, split_from}
use minima_pi_net_os.Prelude.{
  keep, any, str_beq, str_eq, ◌≡◌, refl, Str, codes, true, false, Option, none, some, List, [], ◌∷◌,
  Result, ok, raise, os_error, type_error,
}
use minima_pi_net_os.Json.{is_falsy, get, Value, str, Fields, end, field}
use minima_pi_net_os.Files.{normalized, is_below, link_on_way, safe_relative_parts}
use minima_pi_net_os.Files.Handlers.{Os, write_file}
use minima_pi_net_os.Files.Stored.{IsBody, write_file-escaped}

abbrev root : List Str
root = codes "srv" ∷ []

abbrev outside : List Str
outside = codes "etc" ∷ codes "new" ∷ []

-- A state is the file that was written last.
abbrev State : Type 0
State = Option (List Str × Str)

text_of : Value → Result Str
text_of (str s) = ok s
text_of v = raise type_error

held : State → Result Str
held none = raise os_error
held (some f) = ok f.1

store : State → List Str → Result Str → Result (Unit {0}) × State
store s p (raise e) = (raise e, s)
store s p (ok text) = (ok tt, some (p, text))

-- Every read finds what was written last.
abbrev last_write : Os State
last_write = record {
  exists = λ s p. false;
  is_symlink = λ s p. false;
  resolve = λ s p. p;
  is_dir = λ s p. false;
  iterdir = λ s p. ok [];
  read_text = λ s p. held s;
  write_text = λ s p v. store s p (text_of v);
  unlink = λ s p. (ok tt, none);
}

-- Every path is a link to the one place.
abbrev linked : Os State
linked = record last_write { is_symlink = λ s p. true; resolve = λ s p. outside }

abbrev body : Fields
body = field (codes "path") (str (codes "out")) (field (codes "content") (str (codes "hello")) end)

body_of : IsBody body (codes "out") (codes "hello")
unfolding get str_beq is_falsy
body_of = (refl, refl, refl)

write_file-escaped_example :
    ((write_file linked root body none).0 ≡ ok tt)
    × ((out : List Str) × (is_below root out ≡ false)
        × (linked.read_text (write_file linked root body none).1 out ≡ ok (codes "hello")))
unfolding safe_relative_parts starts_with normalized any keep split_from str_beq link_on_way
    is_below store text_of held
write_file-escaped_example =
    write_file-escaped linked root body (codes "out") (codes "hello") (codes "out" ∷ []) none
      body_of refl refl refl refl refl (λ p link. (refl, refl))
