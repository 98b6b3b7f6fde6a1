-- ===== src/Dapps/Registry.antt =====
-- What holds of the registry of backend/routes/dapps.py however DApps are installed and removed.
use minima_pi_net_os.Prelude.{
  str_eq, Option-cases, ◌≡◌, refl, Str, codes, true, false, Option, some, List, [], ◌∷◌, ◌++◌, any,
  Result, ok, raise, ◌∙◌, arith, beq_iff, ◌==◌, Bool-cases, inl, inr, if-both,
}
use minima_pi_net_os.Json.{Value, str, get}
use minima_pi_net_os.Files.{is_below}
use minima_pi_net_os.Dapps.Cases.{install_dapp-cases}
use minima_pi_net_os.Dapps.Entries.{Host, Dapp, Disk, is_dapp_id, has_id, first_with, drop_first}
use minima_pi_net_os.Dapps.Handlers.{
  entry, install_dapp, removed, uninstall_dapp, safe_registry_install_dir,
}

-- An entry has an identifier that is accepted, and a directory below the root.
pub record IsSound (root : List Str) (d : Dapp) : Type 0 where
  pub dapp_id : Str
  pub named : get (codes "id") d.manifest ≡ some (str dapp_id)
  pub accepted : is_dapp_id dapp_id ≡ true
  pub dir : List Str
  pub placed_at : d.install_path ≡ some dir
  pub below : is_below root dir ≡ true

abbrev pub AllSound : List Str → List Dapp → Type 0
AllSound root [] = Unit
AllSound root (d ∷ ds) = IsSound root d × AllSound root ds

-- No identifier is that of two entries.
abbrev pub AllApart : List Dapp → Type 0
AllApart [] = Unit
AllApart (d ∷ ds) = ((i : Str) → has_id i d ≡ true → any (has_id i) ds ≡ false) × AllApart ds

pub record IsRegistry (root : List Str) (k : Disk) : Type 0 where
  pub sound : AllSound root k.registry
  pub apart : AllApart k.registry

-- A call with what the host answers to it
pub data Operation : Type 0 where
  install : Host → Option Value → Option Value → Operation
  uninstall : Host → Str → Operation

-- The root of the DApps is the same for all calls.
abbrev pub under : List Str → Host → Host
under root h = record h { root_realpath = root }

unfoldable pub step : List Str → Operation → Disk → Disk
step root (install h url manifest) k = (install_dapp (under root h) url manifest k).1
step root (uninstall h dapp_id) k = (uninstall_dapp (under root h) dapp_id k).1

unfoldable pub run : List Str → List Operation → Disk → Disk
run root [] k = k
run root (op ∷ ops) k = run root ops (step root op k)

AllSound-append :
    (root : List Str) (ds : List Dapp) (d : Dapp)
    → AllSound root ds
    → IsSound root d
    → AllSound root (ds ++ d ∷ [])
AllSound-append root [] d h s = (s, tt)
AllSound-append root (e ∷ ds) d h s = (h.0, AllSound-append root ds d h.1 s)

any-append_last :
    (i : Str) (ds : List Dapp) (d : Dapp)
    → any (has_id i) ds ≡ false
    → has_id i d ≡ false
    → any (has_id i) (ds ++ d ∷ []) ≡ false
unfolding any
any-append_last i [] d h p = ground arith
any-append_last i (e ∷ ds) d h p =
    let rest : any (has_id i) ds ≡ false = ground arith in
    ground (arith, any-append_last i ds d rest p)

-- Two identifiers of one entry are equal.
has_id-same :
    (i : Str) (d : Dapp) (j : Str)
    → get (codes "id") d.manifest ≡ some (str j)
    → has_id i d ≡ (j == i)
unfolding has_id
has_id-same i d j named = rw (named, has_id) refl

AllApart-append :
    (j : Str) (ds : List Dapp) (d : Dapp)
    → get (codes "id") d.manifest ≡ some (str j)
    → any (has_id j) ds ≡ false
    → AllApart ds
    → AllApart (ds ++ d ∷ [])
unfolding any
AllApart-append j [] d named free h = ((λ i p. refl), tt)
AllApart-append j (e ∷ ds) d named free h =
    let rest : any (has_id j) ds ≡ false = ground arith in
    (
      λ i p. any-append_last i ds d (h.0 i p) (has_id-same i d j named ∙ other i p),
      AllApart-append j ds d named rest h.1,
    )
  where
    other : (i : Str) → has_id i e ≡ true → (j == i) ≡ false
    other i p = elim (Bool-cases (j == i)) [
      | inl same ↦ let q : has_id j e ≡ true = rw ((beq_iff j i).0 same) p in absurd (ground arith)
      | inr apart ↦ apart
    ]

any-drop_first :
    (i j : Str) (ds : List Dapp)
    → any (has_id i) ds ≡ false
    → any (has_id i) (drop_first j ds) ≡ false
unfolding any drop_first
any-drop_first i j [] h = refl
any-drop_first i j (d ∷ ds) h =
    let rest : any (has_id i) ds ≡ false = ground arith in
    elim (Bool-cases (has_id j d)) [
      | inl here ↦ rw here rest
      | inr there ↦ rw there (ground (arith, any-drop_first i j ds rest))
    ]

AllSound-drop_first :
    (root : List Str) (j : Str) (ds : List Dapp)
    → AllSound root ds
    → AllSound root (drop_first j ds)
unfolding drop_first
AllSound-drop_first root j [] h = tt
AllSound-drop_first root j (d ∷ ds) h =
    if-both (AllSound root) (has_id j d) h.1 (h.0, AllSound-drop_first root j ds h.1)

AllApart-drop_first : (j : Str) (ds : List Dapp) → AllApart ds → AllApart (drop_first j ds)
unfolding drop_first
AllApart-drop_first j [] h = tt
AllApart-drop_first j (d ∷ ds) h =
    if-both AllApart (has_id j d) h.1
      ((λ i p. any-drop_first i j ds (h.0 i p)), AllApart-drop_first j ds h.1)

module _ (root : List Str) (h : Host) where
  install_dapp-IsRegistry :
      (url manifest : Option Value) (k : Disk)
      → IsRegistry root k
      → IsRegistry root (install_dapp (under root h) url manifest k).1
  install_dapp-IsRegistry url manifest k s =
      install_dapp-cases (under root h) k (λ r. IsRegistry root r.1) (λ e. s)
        (λ i manifest files named valid free below.
          let d = entry (under root h) manifest (h.realpath h.mkdtemp) in
          let sound : IsSound root d = record {
            dapp_id = i;
            named = named;
            accepted = valid;
            dir = h.realpath h.mkdtemp;
            placed_at = refl;
            below = below;
          } in
          record {
            sound = AllSound-append root k.registry d s.sound sound;
            apart = AllApart-append i k.registry d named free s.apart;
          })
        url manifest

  removed-IsRegistry :
      (i : Str) (k : Disk) (r : Result (List Str))
      → IsRegistry root k
      → IsRegistry root (removed (under root h) i k r).1
  removed-IsRegistry i k (raise e) s = s
  removed-IsRegistry i k (ok dir) s = record {
    sound = AllSound-drop_first root i k.registry s.sound;
    apart = AllApart-drop_first i k.registry s.apart;
  }

  uninstall_dapp-IsRegistry :
      (i : Str) (k : Disk)
      → IsRegistry root k
      → IsRegistry root (uninstall_dapp (under root h) i k).1
  unfolding uninstall_dapp
  uninstall_dapp-IsRegistry i k s = elim (Bool-cases (is_dapp_id i)) [
    | inr odd ↦ rw odd s
    | inl valid ↦ elim (Option-cases (first_with i k.registry)) [
      | inl gone ↦ rw (valid, gone, uninstall_dapp) s
      | inr (d, at) ↦
          rw (valid, at, uninstall_dapp)
            (removed-IsRegistry i k (safe_registry_install_dir (under root h) d) s)
    ]
  ]

step-IsRegistry :
    (root : List Str) (op : Operation) (k : Disk)
    → IsRegistry root k
    → IsRegistry root (step root op k)
unfolding step
step-IsRegistry root (install h url manifest) k s = install_dapp-IsRegistry root h url manifest k s
step-IsRegistry root (uninstall h i) k s = uninstall_dapp-IsRegistry root h i k s

-- However DApps are installed, from a manifest or from a URL, and removed, and whatever the file
-- system answers: of an orderly registry every entry keeps an identifier that is accepted and a
-- directory below the root, and no identifier is that of two entries.
pub run-IsRegistry :
    (root : List Str) (ops : List Operation) (k : Disk)
    → IsRegistry root k
    → IsRegistry root (run root ops k)
unfolding run
run-IsRegistry root [] k s = s
run-IsRegistry root (op ∷ ops) k s =
    run-IsRegistry root ops (step root op k) (step-IsRegistry root op k s)
