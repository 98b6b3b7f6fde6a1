-- ===== src/Lxc/Tenants.antt =====
-- What the operations of backend/lxc_manager.py do to the tenants' quotas, whatever the kernel does.
use minima_pi_net_os.Prelude.{
  str_eq, ◌≡◌, refl, Str, Bool, true, false, Option, none, some, List, length, leb, Result, ok,
  raise, Option-cases, inl, inr, if-both, ◌∙◌, sym, value_error, if◌then◌else◌,
}
use minima_pi_net_os.Prelude.Text.{starts_with}
use minima_pi_net_os.Dict.{Dict, get, put, remove, has, remove_absent}
use minima_pi_net_os.Dict.Change.{change}
use minima_pi_net_os.Lxc.{
  LxcQuota, Host, Manager, Update, acted, cgroup_path, cgroup_dir, cgroup_base, at_path,
  apply_cgroup_limits, remove_cgroup_limits, then_return, named, create_tenant, set_all,
  update_quota, remove_tenant,
}

acted-quotas :
    (act : Str → Dict Str Str → Dict Str Str) (r : Result (Option Str)) (m : Manager)
    → (acted act r m).1.quotas ≡ m.quotas
acted-quotas act (raise e) m = refl
acted-quotas act (ok none) m = refl
acted-quotas act (ok (some path)) m = refl

module _ (host : Host) where
  cgroup_path-quotas : (t : Str) (m : Manager) → (cgroup_path host t m).1.quotas ≡ m.quotas
  unfolding cgroup_path
  cgroup_path-quotas t m =
      if-both (λ (s : Result _ × Manager). s.1.quotas ≡ m.quotas)
        (starts_with (host.resolve cgroup_base) (cgroup_dir host t m)) refl refl

  at_path-quotas :
      (t : Str) (act : Str → Dict Str Str → Dict Str Str) (m : Manager)
      → (at_path host t act m).1.quotas ≡ m.quotas
  unfolding at_path
  at_path-quotas t act m =
      if-both (λ (s : Result _ × Manager). s.1.quotas ≡ m.quotas) host.cgroup_v2
        (acted-quotas act (cgroup_path host t m).0 (cgroup_path host t m).1
          ∙ cgroup_path-quotas t m)
        refl

  then_return-quotas {ℓ} :
      {A : Type ℓ} (t : Str) (act : Str → Dict Str Str → Dict Str Str) (a : A) (m : Manager)
      → (then_return host (at_path host t act) a m).1.quotas ≡ m.quotas
  unfolding then_return
  then_return-quotas t act a m =
      if-both (λ (s : Result _ × Manager). s.1.quotas ≡ m.quotas) host.lxc_available
        (at_path-quotas t act m) refl

  -- A tenant is created where there is room and its identifier is new, and in no other case does a
  -- creation change the quotas. The kernel's refusals do not undo it.
  pub create_tenant-quotas :
      (now : Str) (q : LxcQuota) (m : Manager)
      → (create_tenant host now q m).1.quotas ≡ (
          if leb host.max_tenants (length m.quotas)
          then m.quotas
          else if has q.tenant_id m.quotas
          then m.quotas
          else put q.tenant_id (named now q) m.quotas)
  unfolding create_tenant apply_cgroup_limits
  create_tenant-quotas now q m =
      by_tests (leb host.max_tenants (length m.quotas)) (has q.tenant_id m.quotas)
    where
      created : Manager
      created = record m { quotas = put q.tenant_id (named now q) m.quotas }

      end : Result LxcQuota × Manager
      end = then_return host (apply_cgroup_limits host (named now q)) (named now q) created

      by_tests :
          (full taken : Bool)
          → Path
              (Dict Str LxcQuota)
              (if full
                then (raise value_error, m)
                else if taken
                then (raise value_error, m)
                else end).1.quotas
              (if full then m.quotas else if taken then m.quotas else created.quotas)
      by_tests true taken = refl
      by_tests false true = refl
      by_tests false false = then_return-quotas (named now q).tenant_id _ (named now q) created

  pub update_quota-quotas :
      (t : Str) (us : List Update) (m : Manager)
      → (update_quota host t us m).1.quotas ≡ (change t (set_all us) m.quotas).1
  unfolding update_quota change apply_cgroup_limits
  update_quota-quotas t us m = elim (Option-cases (get t m.quotas)) [
    | inl gone ↦ rw (gone, update_quota, change) refl
    | inr (q, at) ↦
        rw (at, update_quota, change)
          (then_return-quotas (set_all us q).tenant_id _ (set_all us q)
            (record m { quotas = put t (set_all us q) m.quotas }))
  ]

  pub remove_tenant-quotas :
      (t : Str) (m : Manager) → (remove_tenant host t m).1.quotas ≡ remove t m.quotas
  unfolding remove_tenant remove_cgroup_limits
  remove_tenant-quotas t m = elim (Option-cases (get t m.quotas)) [
    | inl gone ↦
        let absent : has t m.quotas ≡ false = unfold has in rw gone in
        rw (gone, remove_tenant) (sym (remove_absent t m.quotas absent))
    | inr (q, at) ↦
        rw (at, remove_tenant)
          (then_return-quotas q.tenant_id _ true (record m { quotas = remove t m.quotas }))
  ]
