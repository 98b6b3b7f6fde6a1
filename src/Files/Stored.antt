-- ===== src/Files/Stored.antt =====
-- What the handlers of backend/routes/files.py do to the files.
use minima_pi_net_os.Prelude.{
  str_eq, ◌≡◌, refl, ap, ◌∙◌, Str, codes, true, false, List, [], ◌++◌, Result, ok, raise, ◌>>=◌,
  ◌⊎◌, ◌≢◌, inl, inr, Bool-cases, Result-cases, if-both,
}
use minima_pi_net_os.Json.{
  Value, null, bool, int, float, obj, arr, str, Fields, get, get_or, is_falsy,
}
use minima_pi_net_os.Files.{
  is_below, link_on_way, safe_relative_parts, safe_resolve, safe_resolve_delete,
}
use minima_pi_net_os.Files.Below.{
  AllPlain, safe_resolve-below, safe_resolve-missing, safe_resolve_delete-ne,
}
use minima_pi_net_os.Files.Handlers.{
  Os, view, server_error, text_path, written, unlinked, write_file, delete_file,
}

-- A body that names a path and a text
abbrev pub IsBody : Fields → Str → Str → Type 0
IsBody body path content =
    (get_or (get (codes "path") body) (str []) ≡ str path)
    × (get_or (get (codes "content") body) (str []) ≡ str content)
    × (is_falsy (str path) ≡ false)

module _ {S : Type 0} (os : Os S) (root : List Str) where
  -- What a write does to the state: nothing, or what the operating system does at a path.
  abbrev pub IsConfined : Value → S → S → Type 0
  IsConfined content s after =
      (after ≡ s)
      ⊎ ((parts : List Str) × AllPlain parts
          × (after ≡ (os.write_text s (root ++ parts) content).1))

  written-IsConfined :
      (content : Value) (s : S) (path : Str) (r : Result (List Str))
      → safe_resolve (view os root s) root path ≡ r
      → IsConfined content s (written os root content s r).1
  written-IsConfined content s path (raise e) h = inl refl
  written-IsConfined content s path (ok p) h =
      let (parts, same, plain, no_link, no_escape) =
        safe_resolve-below (view os root s) root path p h in
      inr (parts, plain, ap (λ q. (os.write_text s q content).1) same)

  -- A write is refused and changes nothing, or it is that of the operating system to a path which is
  -- the root with plain parts below it.
  pub write_file-IsConfined :
      (body : Fields) (s : S)
      → IsConfined (get_or (get (codes "content") body) (str [])) s (write_file os root body s).1
  unfolding write_file text_path
  write_file-IsConfined body s =
      let content = get_or (get (codes "content") body) (str []) in
      if-both (λ (r : Result (Unit {0}) × S). IsConfined content s r.1)
        (is_falsy (get_or (get (codes "path") body) (str []))) (inl refl)
        (by_path content (get_or (get (codes "path") body) (str [])))
    where
      by_path :
          (content v : Value)
          → IsConfined content s
              (written os root content s (text_path v >>= safe_resolve (view os root s) root)).1
      by_path content (str path) = written-IsConfined content s path _ refl
      by_path content null = inl refl
      by_path content (bool b) = inl refl
      by_path content (int i) = inl refl
      by_path content (float t) = inl refl
      by_path content (obj fs) = inl refl
      by_path content (arr xs) = inl refl

  write_file-body :
      (body : Fields) (path content : Str) (s : S)
      → IsBody body path content
      → write_file os root body s
        ≡ written os root (str content) s (safe_resolve (view os root s) root path)
  unfolding write_file text_path
  write_file-body body path content s (at_path, at_content, there) =
      rw (at_path, at_content, there, text_path) refl

  -- A write through a symbolic link whose target is not there is let through and leaves the root: on a
  -- file system that writes to where the link leads, the text is then in a file that is not below it.
  pub write_file-escaped :
      (body : Fields) (path content : Str) (parts : List Str) (s : S)
      → IsBody body path content
      → safe_relative_parts path ≡ ok parts
      → link_on_way (view os root s) root parts ≡ false
      → os.exists s (root ++ parts) ≡ false
      → os.is_symlink s (root ++ parts) ≡ true
      → is_below root (os.resolve s (root ++ parts)) ≡ false
      → ((p : List Str)
          → os.is_symlink s p ≡ true
          → ((os.write_text s p (str content)).0 ≡ ok tt)
            × (os.read_text (os.write_text s p (str content)).1 (os.resolve s p) ≡ ok content))
      → ((write_file os root body s).0 ≡ ok tt)
        × ((out : List Str) × (is_below root out ≡ false)
            × (os.read_text (write_file os root body s).1 out ≡ ok content))
  write_file-escaped body path content parts s b plain no_link missing link outside followed =
      let p = root ++ parts in
      let w = os.write_text s p (str content) in
      let stored : write_file os root body s ≡ (server_error w.0, w.1) =
        write_file-body body path content s b
        ∙ ap (written os root (str content) s)
            (safe_resolve-missing (view os root s) root path parts plain no_link missing) in
      let (done, there) = followed p link in
      (
        ap (λ r. r.0) stored ∙ ap server_error done,
        (os.resolve s p, outside, ap (λ r. os.read_text r.1 (os.resolve s p)) stored ∙ there),
      )

  -- A deletion is refused and changes nothing, or it unlinks one path below the root which is no
  -- directory.
  pub delete_file-one :
      (path : Str) (s : S)
      → ((delete_file os root path s).1 ≡ s)
        ⊎ ((p : List Str) × (p ≢ root)
            × (safe_resolve (view os root s) root path ≡ ok p)
            × (os.is_dir s p ≡ false)
            × ((delete_file os root path s).1 ≡ (os.unlink s p).1))
  unfolding delete_file
  delete_file-one path s = elim (Result-cases (safe_resolve_delete (view os root s) root path)) [
    | inl (e, refused) ↦ inl (rw (refused, unlinked) refl)
    | inr (p, through) ↦ elim (Bool-cases (os.is_dir s p)) [
      | inl directory ↦ inl (rw (through, unlinked, directory) refl)
      | inr file ↦
          let (other, resolves) = safe_resolve_delete-ne (view os root s) root path p through in
          inr (p, other, resolves, file, rw (through, unlinked, file) refl)
    ]
  ]
