-- ===== src/Lxc/Untouched.antt =====
-- What the reading of usages in backend/lxc_manager.py leaves alone, and what makes it raise.
use minima_pi_net_os.Prelude.{
  str_eq, ◌≡◌, refl, ◌∙◌, Str, true, ◌&&◌, Option, none, some, List, [], ◌∷◌, Result, ok, raise,
  os_error, if-both,
}
use minima_pi_net_os.Prelude.Text.{starts_with}
use minima_pi_net_os.Dict.{get, keys}
use minima_pi_net_os.Lxc.{LxcQuota, Host, Manager, cgroup_base, cgroup_dir, cgroup_path}
use minima_pi_net_os.Lxc.Usage.{
  Floats, LxcQuotaUsage, read_cgroup_usage, usage_for, get_usage, gathered, usages, get_all_usage,
}

abbrev pub IsSame : Manager → Manager → Type 0
IsSame m after = (after.quotas ≡ m.quotas) × (after.files ≡ m.files)

cgroup_path-IsSame :
    (host : Host) (tenant_id : Str) (m : Manager) → IsSame m (cgroup_path host tenant_id m).1
unfolding cgroup_path
cgroup_path-IsSame host tenant_id m =
    if-both (λ (r : Result (Option Str) × Manager). IsSame m r.1)
      (starts_with (host.resolve cgroup_base) (cgroup_dir host tenant_id m)) (refl, refl)
      (refl, refl)

module _ {F : Type 0} (fl : Floats F) (host : Host) (text : Str → Option Str) where
  usage_for-IsSame :
      (tenant_id : Str) (q : Option LxcQuota) (m : Manager)
      → IsSame m (usage_for fl host text tenant_id q m).1
  unfolding read_cgroup_usage
  usage_for-IsSame tenant_id none m = (refl, refl)
  usage_for-IsSame tenant_id (some q) m =
      if-both (λ (r : Result (LxcQuotaUsage F) × Manager). IsSame m r.1)
        (host.lxc_available && host.cgroup_v2) (cgroup_path-IsSame host q.tenant_id m) (refl, refl)

  gathered-IsSame :
      (m : Manager) (rest : Manager → Result (List (LxcQuotaUsage F)) × Manager)
      (r : Result (LxcQuotaUsage F) × Manager)
      → ((n : Manager) → IsSame n (rest n).1)
      → IsSame m r.1
      → IsSame m (gathered fl host text rest r).1
  gathered-IsSame m rest (raise e, after) later same = same
  gathered-IsSame m rest (ok u, after) later (quotas, files) =
      let (quotas', files') = later after in (quotas' ∙ quotas, files' ∙ files)

  usages-IsSame : (ids : List Str) (m : Manager) → IsSame m (usages fl host text ids m).1
  unfolding usages get_usage
  usages-IsSame [] m = (refl, refl)
  usages-IsSame (tenant_id ∷ ids) m =
      gathered-IsSame m (usages fl host text ids) (get_usage fl host text tenant_id m)
        (λ n. usages-IsSame ids n) (usage_for-IsSame tenant_id (get tenant_id m.quotas) m)

  -- However the reading of all usages ends, the quotas and the files of the limits are as before.
  pub get_all_usage-IsSame : (m : Manager) → IsSame m (get_all_usage fl host text m).1
  unfolding get_all_usage
  get_all_usage-IsSame m = usages-IsSame (keys m.quotas) m

  -- Where the kernel refuses to make the tenant's directory, the reading of its usage raises.
  pub get_usage-refused :
      (tenant_id : Str) (q : LxcQuota) (m : Manager)
      → get tenant_id m.quotas ≡ some q
      → (host.lxc_available && host.cgroup_v2) ≡ true
      → starts_with (host.resolve cgroup_base) (cgroup_dir host q.tenant_id m) ≡ true
      → host.refuses_mkdir (cgroup_dir host q.tenant_id m) ≡ true
      → (get_usage fl host text tenant_id m).0 ≡ raise os_error
  unfolding get_usage read_cgroup_usage cgroup_path
  get_usage-refused tenant_id q m kept there below refused =
      rw (kept, usage_for, there, below, refused) refl
