-- ===== src/Dapps/Serve.antt =====
-- What backend/routes/dapps.py serves, and what an installation and a removal undo.
use minima_pi_net_os.Prelude.{
  str_eq, ◌≡◌, refl, Str, true, false, not, ◌||◌, Option, some, List, [], ◌∷◌, ◌++◌, any, Result,
  ok, raise, http, bind-ok, ok-injective, sym, ap, ◌∙◌, arith, beq_iff, Bool-cases, Option-cases,
  inl, inr,
}
use minima_pi_net_os.Json.{Value}
use minima_pi_net_os.Files.{is_below, safe_relative_parts}
use minima_pi_net_os.Dapps.Entries.{Host, Dapp, Disk, is_dapp_id, has_id, first_with, drop_first}
use minima_pi_net_os.Dapps.Handlers.{
  entry, install_dapp, get_dapp, removed, uninstall_dapp, safe_registry_install_dir,
  target_candidate, served_from, serve_dapp_file,
}
use minima_pi_net_os.Dapps.Cases.{install_dapp-cases}

is_below_trans :
    (p q r : List Str) → is_below p q ≡ true → is_below q r ≡ true → is_below p r ≡ true
unfolding is_below
is_below_trans [] q r h g = refl
is_below_trans (a ∷ p) [] r h g = absurd (cc)
is_below_trans (a ∷ p) (b ∷ q) [] h g = absurd (cc)
is_below_trans (a ∷ p) (b ∷ q) (c ∷ r) h g =
    let tail_h : is_below p q ≡ true = ground arith in
    let tail_g : is_below q r ≡ true = ground arith in
    ground (arith, beq_iff a b, beq_iff b c, beq_iff a c, is_below_trans p q r tail_h tail_g)

-- An entry is found under its identifier behind others, and dropping it leaves them.
first_with-last :
    (i : Str) (ds : List Dapp) (d : Dapp)
    → any (has_id i) ds ≡ false
    → has_id i d ≡ true
    → (first_with i (ds ++ d ∷ []) ≡ some d) × (drop_first i (ds ++ d ∷ []) ≡ ds)
unfolding any first_with drop_first
first_with-last i [] d free own = rw own (refl, refl)
first_with-last i (e ∷ ds) d free own =
    let rest : any (has_id i) ds ≡ false = ground arith in
    let other : has_id i e ≡ false = ground arith in
    let (found, left) = first_with-last i ds d rest own in rw other (found, ap (λ t. e ∷ t) left)

-- What is left by an installation that answers with an entry.
abbrev pub IsUndone : Host → Disk → Result Dapp × Disk → Type 0
IsUndone h k (raise e, after) = Unit
IsUndone h k (ok d, after) =
    (i : Str) × (get_dapp h i after.registry ≡ ok d)
    × ((uninstall_dapp h i after).0 ≡ ok tt)
    × ((uninstall_dapp h i after).1.registry ≡ k.registry)

-- A DApp that was installed, from a manifest or from a URL, is there under an identifier under which
-- its removal succeeds and leaves the registry as it was before; `realpath` is idempotent.
pub install_dapp-IsUndone :
    (h : Host) (url manifest : Option Value) (k : Disk)
    → ((p : List Str) → h.realpath (h.realpath p) ≡ h.realpath p)
    → IsUndone h k (install_dapp h url manifest k)
unfolding get_dapp uninstall_dapp safe_registry_install_dir has_id
install_dapp-IsUndone h url manifest k idempotent =
    install_dapp-cases h k (IsUndone h k) (λ e. tt)
      (λ i manifest files named valid free below.
        let dir = h.realpath h.mkdtemp in
        let d = entry h manifest dir in
        let own : has_id i d ≡ true = rw (named, has_id) ((beq_iff i i).1 refl) in
        let (found, left) = first_with-last i k.registry d free own in
        let again : is_below h.root_realpath (h.realpath dir) ≡ true = rw idempotent below in
        (
          i,
          rw (valid, found, get_dapp) refl,
          rw (valid, found, uninstall_dapp, again, safe_registry_install_dir, removed) refl,
          rw (valid, found, uninstall_dapp, again, safe_registry_install_dir, removed) left,
        ))
      url manifest

get_dapp-ok :
    (h : Host) (i : Str) (registry : List Dapp) (d : Dapp)
    → get_dapp h i registry ≡ ok d
    → (is_dapp_id i ≡ true) × (first_with i registry ≡ some d)
unfolding get_dapp
get_dapp-ok h i registry d g = elim (Bool-cases (is_dapp_id i)) [
  | inr odd ↦ let e : raise (http 400) ≡ ok d = rw odd at g in absurd (cc)
  | inl valid ↦ elim (Option-cases (first_with i registry)) [
    | inl gone ↦ let e : raise (http 404) ≡ ok d = rw (valid, gone) at g in absurd (cc)
    | inr (c, at) ↦
        let e : ok c ≡ ok d = rw (valid, at) at g in (valid, at ∙ ap some (ok-injective e))
  ]
]

safe_registry_install_dir-below :
    (h : Host) (d : Dapp) (dir : List Str)
    → safe_registry_install_dir h d ≡ ok dir
    → (raw_path : List Str) × (d.install_path ≡ some raw_path)
      × (dir ≡ h.realpath raw_path)
      × (is_below h.root_realpath dir ≡ true)
unfolding safe_registry_install_dir
safe_registry_install_dir-below h d dir g = elim (Option-cases d.install_path) [
  | inl gone ↦ let e : raise (http 500) ≡ ok dir = rw gone at g in absurd (cc)
  | inr (raw_path, at) ↦ elim (Bool-cases (is_below h.root_realpath (h.realpath raw_path))) [
    | inr outside ↦ let e : raise (http 403) ≡ ok dir = rw (at, outside) at g in absurd (cc)
    | inl below ↦
        let e : ok (h.realpath raw_path) ≡ ok dir = rw (at, below) at g in
        let same = ok-injective e in (raw_path, at, sym same, rw (sym same) below)
  ]
]

served_from-ok :
    (h : Host) (dir parts target : List Str)
    → served_from h dir parts ≡ ok target
    → (is_below (h.realpath dir) target ≡ true)
      × (h.exists target ≡ true)
      × (h.is_dir target ≡ false)
served_from-ok h dir parts target g =
    let path = h.realpath (target_candidate h dir parts) in
    elim (Bool-cases (is_below (h.realpath dir) path)) [
      | inr outside ↦ let e : raise (http 403) ≡ ok target = rw outside at g in absurd (cc)
      | inl below ↦ elim (Bool-cases (not (h.exists path) || h.is_dir path)) [
        | inl missing ↦
            let e : raise (http 404) ≡ ok target = rw (below, missing) at g in absurd (cc)
        | inr there ↦
            let e : ok path ≡ ok target = rw (below, there) at g in
            let same = ok-injective e in
            (rw (sym same) below, rw (sym same) (ground arith), rw (sym same) (ground arith))
      ]
    ]

-- A file that is served is one of an installed DApp of an accepted identifier, whatever the request's
-- path and the links of the file system: it exists, is no directory, and is below the DApp's own
-- directory, which is below the root; `realpath` is idempotent.
pub serve_dapp_file-below :
    (h : Host) (i file_path : Str) (registry : List Dapp) (target : List Str)
    → ((p : List Str) → h.realpath (h.realpath p) ≡ h.realpath p)
    → serve_dapp_file h i file_path registry ≡ ok target
    → (d : Dapp) × (raw_path : List Str) × (is_dapp_id i ≡ true)
      × (first_with i registry ≡ some d)
      × (d.install_path ≡ some raw_path)
      × (is_below (h.realpath raw_path) target ≡ true)
      × (is_below h.root_realpath target ≡ true)
      × (h.exists target ≡ true)
      × (h.is_dir target ≡ false)
unfolding serve_dapp_file
serve_dapp_file-below h i file_path registry target idempotent g =
    let (d, got, g1) = bind-ok (get_dapp h i registry) _ g in
    let (dir, checked, g2) = bind-ok (safe_registry_install_dir h d) _ g1 in
    let (parts, plain, g3) = bind-ok (safe_relative_parts file_path) _ g2 in
    let (valid, found) = get_dapp-ok h i registry d got in
    let (raw_path, at, same, below) = safe_registry_install_dir-below h d dir checked in
    let (inside, there, file) = served_from-ok h dir parts target g3 in
    let canonical : h.realpath dir ≡ h.realpath raw_path =
      ap h.realpath same ∙ idempotent raw_path in
    let own : is_below (h.realpath raw_path) target ≡ true = rw canonical at inside in
    let root : is_below h.root_realpath (h.realpath raw_path) ≡ true = rw same at below in
    (
      d,
      raw_path,
      valid,
      found,
      at,
      own,
      is_below_trans h.root_realpath (h.realpath raw_path) target root own,
      there,
      file,
    )
