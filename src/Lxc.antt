-- ===== src/Lxc.antt =====
-- backend/lxc_manager.py and the class `LXCQuota` of backend/models.py: the tenants' quotas and the
-- limits written to the cgroup files; Usage is the usage that is read back from the kernel.
pub mod Tenants
pub mod Stored
pub mod Usage
pub mod Untouched
use minima_pi_net_os.Prelude.{
  str_eq, ℕ, zero, suc, ◌+◌, ◌*◌, Str, codes, Bool, true, false, ◌&&◌, Option, none, some, List, [],
  ◌∷◌, ◌++◌, map, length, take, leb, Result, ok, raise, value_error, key_error, os_error, ◌==◌,
  if◌then◌else◌,
}
use minima_pi_net_os.Prelude.Int.{ℤ, pos, negsuc, pos_part, max_ℤ, min_ℤ}
use minima_pi_net_os.Json.Number.{decimal}
use minima_pi_net_os.Dict.{Dict, get, put, remove, has, values}
use minima_pi_net_os.Dict.Rebuild.{load_all}
use minima_pi_net_os.Prelude.Text.{starts_with}

pub record LxcQuota : Type 0 where
  pub tenant_id : Str
  pub container_name : Str
  pub cpu_limit : ℤ
  pub ram_limit_mb : ℤ
  pub disk_limit_gb : ℤ
  pub io_iops : ℤ
  pub network_mbps : ℤ
  pub processes_max : ℤ
  pub enabled : Bool
  pub created_at : Str

-- The node: whether LXC and cgroups v2 are there, where paths lead, what the kernel refuses, and the
-- limits of the configuration.
pub record Host : Type 0 where
  pub lxc_available : Bool
  pub cgroup_v2 : Bool
  pub max_tenants : ℕ
  pub sha256 : Str → Str
  -- `Path(p).resolve()`
  pub resolve : Str → Str
  -- `mkdir(parents=True, exist_ok=True)` and `write_text` raise `OSError` on these paths
  pub refuses_mkdir : Str → Bool
  pub refuses_write : Str → Bool
  -- the cgroup's processes can be moved and its directory removed
  pub removable : Str → Bool

-- The manager, and the cgroup files by their paths.
pub record Manager : Type 0 where
  pub quotas : Dict Str LxcQuota
  pub tenant_cgroup : Dict Str Str
  pub files : Dict Str Str

abbrev pub cgroup_base : Str
cgroup_base = codes "/sys/fs/cgroup/lxc"

unfoldable pub list_tenants : Manager → List LxcQuota
list_tenants m = values m.quotas

unfoldable pub get_quota : Str → Manager → Option LxcQuota
get_quota tenant_id m = get tenant_id m.quotas

-- `max(0, min(value, limit))`
abbrev pub clamp : ℕ → ℤ → ℕ
clamp limit value = pos_part (max_ℤ (pos 0) (min_ℤ value (pos limit)))

-- The files of a tenant's limits, with their texts, in the order in which they are written.
unfoldable pub limits_of : LxcQuota → List (Str × Str)
limits_of q =
    let iops = decimal (clamp 1000000 q.io_iops * 1024) in
    (codes "/cpu.max", decimal (clamp 128 q.cpu_limit * 1000) ++ codes " 100000")
    ∷ (codes "/memory.max", decimal (clamp 1048576 q.ram_limit_mb * 1024 * 1024))
    ∷ (codes "/io.max", codes "rbps max=" ++ (iops ++ (codes " wbps max=" ++ iops)))
    ∷ (codes "/pids.max", decimal (clamp 65535 q.processes_max))
    ∷ []

abbrev pub acted :
    (Str → Dict Str Str → Dict Str Str)
    → Result (Option Str)
    → Manager
    → Result (Unit {0}) × Manager
acted act (raise e) m = (raise e, m)
acted act (ok none) m = (ok tt, m)
acted act (ok (some path)) m = (ok tt, record m { files = act path m.files })

abbrev pub finish {ℓ} : {A : Type ℓ} → A → Result (Unit {0}) → Result A
finish a (ok t) = ok a
finish a (raise e) = raise e

abbrev pub named : Str → LxcQuota → LxcQuota
named now q = record q {
  container_name = elim q.container_name [
    | [] ↦ codes "pinet-tenant-" ++ q.tenant_id
    | c ∷ s ↦ c ∷ s
  ];
  created_at = now;
}

module _ (host : Host) where
  -- Where the identifier is not known yet it is kept; the path is refused where it does not stay
  -- below the base.
  unfoldable pub cgroup_id : Str → Manager → Str
  cgroup_id tenant_id m = elim (get tenant_id m.tenant_cgroup) [
    | some id ↦ id
    | none ↦ take 16 (host.sha256 tenant_id)
  ]

  abbrev pub cgroup_dir : Str → Manager → Str
  cgroup_dir tenant_id m =
      host.resolve (host.resolve cgroup_base ++ (codes "/" ++ cgroup_id tenant_id m))

  abbrev pub noted : Str → Manager → Manager
  noted tenant_id m = record m {
    tenant_cgroup = put tenant_id (cgroup_id tenant_id m) m.tenant_cgroup;
  }

  unfoldable pub cgroup_path : Str → Manager → Result (Option Str) × Manager
  cgroup_path tenant_id m =
      let path = cgroup_dir tenant_id m in
      if starts_with (host.resolve cgroup_base) path
      then (if host.refuses_mkdir path then raise os_error else ok (some path), noted tenant_id m)
      else (ok none, noted tenant_id m)

  -- The first refusal ends the writing; it is caught and logged.
  unfoldable pub write_all : Str → List (Str × Str) → Dict Str Str → Dict Str Str
  write_all path [] files = files
  write_all path ((name, text) ∷ more) files =
      let rest = write_all path more (put (path ++ name) text files) in
      if host.refuses_write (path ++ name) then files else rest

  -- Either of `_apply_cgroup_limits` and `_remove_cgroup_limits`, by what it does at the path.
  unfoldable pub at_path :
      Str → (Str → Dict Str Str → Dict Str Str) → Manager → Result (Unit {0}) × Manager
  at_path tenant_id act m =
      let (r, after) = cgroup_path tenant_id m in
      if host.cgroup_v2 then acted act r after else (ok tt, m)

  unfoldable pub apply_cgroup_limits : LxcQuota → Manager → Result (Unit {0}) × Manager
  apply_cgroup_limits q = at_path q.tenant_id (λ path. write_all path (limits_of q))

  -- The directory goes with its files.
  unfoldable pub remove_below : Str → Dict Str Str → Dict Str Str
  remove_below path [] = []
  remove_below path ((p, text) ∷ files) =
      let rest = remove_below path files in
      if starts_with (path ++ codes "/") p then rest else (p, text) ∷ rest

  unfoldable pub remove_cgroup_limits : LxcQuota → Manager → Result (Unit {0}) × Manager
  remove_cgroup_limits q =
      at_path q.tenant_id
        (λ path files. if host.removable path then remove_below path files else files)

  -- `if _LXC_AVAILABLE: …`, with the result where nothing was raised
  unfoldable pub then_return {ℓ} :
      {A : Type ℓ} → (Manager → Result (Unit {0}) × Manager) → A → Manager → Result A × Manager
  then_return act a m =
      if host.lxc_available then (let (r, after) = act m in (finish a r, after)) else (ok a, m)

  unfoldable pub create_tenant : Str → LxcQuota → Manager → Result LxcQuota × Manager
  create_tenant now q m =
      if leb host.max_tenants (length m.quotas)
      then (raise value_error, m)
      else if has q.tenant_id m.quotas
      then (raise value_error, m)
      else then_return (apply_cgroup_limits (named now q)) (named now q)
          (record m { quotas = put q.tenant_id (named now q) m.quotas })

-- One `setattr` of an update; a key that names no member is left out.
pub data Update : Type 0 where
  set_tenant_id set_container_name set_created_at : Str → Update
  set_cpu_limit set_ram_limit_mb set_disk_limit_gb set_io_iops set_network_mbps set_processes_max :
      ℤ → Update
  set_enabled : Bool → Update

abbrev pub set : Update → LxcQuota → LxcQuota
set (set_tenant_id v) q = record q { tenant_id = v }
set (set_container_name v) q = record q { container_name = v }
set (set_created_at v) q = record q { created_at = v }
set (set_cpu_limit v) q = record q { cpu_limit = v }
set (set_ram_limit_mb v) q = record q { ram_limit_mb = v }
set (set_disk_limit_gb v) q = record q { disk_limit_gb = v }
set (set_io_iops v) q = record q { io_iops = v }
set (set_network_mbps v) q = record q { network_mbps = v }
set (set_processes_max v) q = record q { processes_max = v }
set (set_enabled v) q = record q { enabled = v }

unfoldable pub set_all : List Update → LxcQuota → LxcQuota
set_all [] q = q
set_all (u ∷ us) q = set_all us (set u q)

module _ (host : Host) where
  unfoldable pub update_quota : Str → List Update → Manager → Result LxcQuota × Manager
  update_quota tenant_id updates m = elim (get tenant_id m.quotas) [
    | none ↦ (raise key_error, m)
    | some q ↦
        then_return host (apply_cgroup_limits host (set_all updates q)) (set_all updates q)
          (record m { quotas = put tenant_id (set_all updates q) m.quotas })
  ]

  unfoldable pub remove_tenant : Str → Manager → Result Bool × Manager
  remove_tenant tenant_id m = elim (get tenant_id m.quotas) [
    | none ↦ (ok false, m)
    | some q ↦
        then_return host (remove_cgroup_limits host q) true
          (record m { quotas = remove tenant_id m.quotas })
  ]

unfoldable pub to_state {ℓ} : {Item : Type ℓ} → (LxcQuota → Item) → Manager → List Item
to_state dump m = map dump (values m.quotas)

-- `build` is `LXCQuota(**item)`.
unfoldable pub from_state {ℓ} :
    {Item : Type ℓ} → (Item → Option LxcQuota) → List Item → Manager → Manager
from_state build items m = record m { quotas = load_all (λ q. q.tenant_id) build items [] }
