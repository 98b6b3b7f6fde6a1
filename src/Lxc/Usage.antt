-- ===== src/Lxc/Usage.antt =====
-- The usage that backend/lxc_manager.py reads back from the kernel. What `float()` gives and how it is
-- divided is the record `Floats`, since floats are left abstract.
use minima_pi_net_os.Prelude.{
  str_eq, nat_eq, ℕ, ◌*◌, Str, codes, Bool, true, false, ◌&&◌, Option, none, some, List, [], ◌∷◌,
  ◌++◌, length, leb, Result, ok, raise, value_error, key_error, os_error, index_error,
  if◌then◌else◌,
}
use minima_pi_net_os.Prelude.Text.{starts_with, split, lstrip, rstrip, is_space}
use minima_pi_net_os.Dict.{get, keys}
use minima_pi_net_os.Lxc.{LxcQuota, Host, Manager, cgroup_path}

pub record Floats (F : Type 0) : Type 0 where
  pub zero_f : F
  pub float : Str → Option F
  pub divided : F → ℕ → F

pub record LxcQuotaUsage (F : Type 0) : Type 0 where
  pub tenant_id : Str
  pub cpu_percent : F
  pub ram_used_mb : F
  pub disk_used_gb : F
  pub io_read_iops : ℕ
  pub io_write_iops : ℕ
  pub processes : ℕ
  pub running : Bool

unfoldable pub until_space : Str → Str
until_space [] = []
until_space (c ∷ s) = let rest = until_space s in if is_space c then [] else c ∷ rest

unfoldable pub after_word : Str → Str
after_word [] = []
after_word (c ∷ s) = let rest = after_word s in if is_space c then c ∷ s else rest

-- `line.split()[1]` of a line that does not begin with a space
abbrev pub second_word : Str → Option Str
second_word line = elim (until_space (lstrip (after_word line))) [
  | [] ↦ none
  | c ∷ s ↦ some (c ∷ s)
]

-- `text.strip().splitlines()`
abbrev pub lines_of : Str → List Str
lines_of text = elim (rstrip (lstrip text)) [ [] ↦ [] | c ∷ s ↦ split b'\n' (c ∷ s) ]

module _ {F : Type 0} (fl : Floats F) where
  abbrev pub blank : Str → LxcQuotaUsage F
  blank tenant_id = record {
    tenant_id = tenant_id;
    cpu_percent = fl.zero_f;
    ram_used_mb = fl.zero_f;
    disk_used_gb = fl.zero_f;
    io_read_iops = 0;
    io_write_iops = 0;
    processes = 0;
    running = false;
  }

  -- The members that were set stay set where a later statement raises.
  abbrev pub Reading : Type 0
  Reading = Result (Unit {0}) × LxcQuotaUsage F

  abbrev pub read_then : (LxcQuotaUsage F → Reading) → Reading → Reading
  read_then next (raise e, u) = (raise e, u)
  read_then next (ok t, u) = next u

  abbrev pub with_cpu : Option F → LxcQuotaUsage F → Reading
  with_cpu none u = (raise value_error, u)
  with_cpu (some f) u = (ok tt, record u { cpu_percent = fl.divided f 1000000; running = true })

  abbrev pub cpu_word : Option Str → LxcQuotaUsage F → Reading
  cpu_word none u = (raise index_error, u)
  cpu_word (some word) u = with_cpu (fl.float word) u

  unfoldable pub read_cpu : List Str → LxcQuotaUsage F → Reading
  read_cpu [] u = (ok tt, u)
  read_cpu (line ∷ lines) u =
      read_then (read_cpu lines) (
        if starts_with (codes "usage_usec") line then cpu_word (second_word line) u else (ok tt, u))

  abbrev pub read_cpu_stat : Option Str → LxcQuotaUsage F → Reading
  read_cpu_stat none u = (raise os_error, u)
  read_cpu_stat (some text) u = read_cpu (split b'\n' text) u

  abbrev pub with_ram : Option F → LxcQuotaUsage F → Reading
  with_ram none u = (raise value_error, u)
  with_ram (some f) u = (ok tt, record u { ram_used_mb = fl.divided f (1024 * 1024) })

  abbrev pub read_memory : Option Str → LxcQuotaUsage F → Reading
  read_memory none u = (raise os_error, u)
  read_memory (some text) u = with_ram (fl.float (rstrip (lstrip text))) u

  abbrev pub read_procs : Option Str → LxcQuotaUsage F → Reading
  read_procs none u = (raise os_error, u)
  read_procs (some text) u =
      let processes = length (lines_of text) in
      (ok tt, record u { processes = processes; running = leb 1 processes })

  -- `except (OSError, ValueError)`, after which the usage is returned as it is
  abbrev pub caught : Reading → Result (LxcQuotaUsage F)
  caught (ok t, u) = ok u
  caught (raise os_error, u) = ok u
  caught (raise value_error, u) = ok u
  caught (raise e, u) = raise e

  -- `text` reads a file; none where that raises OSError.
  module _ (host : Host) (text : Str → Option Str) where
    unfoldable pub usage_at : Str → Str → Result (LxcQuotaUsage F)
    usage_at tenant_id path = caught (
        read_then (read_procs (text (path ++ codes "/cgroup.procs"))) (
          read_then (read_memory (text (path ++ codes "/memory.current")))
            (read_cpu_stat (text (path ++ codes "/cpu.stat")) (blank tenant_id))))

    abbrev pub usage_of : Str → Result (Option Str) → Result (LxcQuotaUsage F)
    usage_of tenant_id (raise e) = raise e
    usage_of tenant_id (ok none) = ok (blank tenant_id)
    usage_of tenant_id (ok (some path)) = usage_at tenant_id path

    -- `_cgroup_path` makes the directory, so that it is there.
    unfoldable pub read_cgroup_usage : LxcQuota → Manager → Result (LxcQuotaUsage F) × Manager
    read_cgroup_usage q m =
        let (path, after) = cgroup_path host q.tenant_id m in (usage_of q.tenant_id path, after)

    abbrev pub usage_for : Str → Option LxcQuota → Manager → Result (LxcQuotaUsage F) × Manager
    usage_for tenant_id none m = (raise key_error, m)
    usage_for tenant_id (some q) m =
        if host.lxc_available && host.cgroup_v2
        then read_cgroup_usage q m
        else (ok (blank tenant_id), m)

    unfoldable pub get_usage : Str → Manager → Result (LxcQuotaUsage F) × Manager
    get_usage tenant_id m = usage_for tenant_id (get tenant_id m.quotas) m

    abbrev pub gathered :
        (Manager → Result (List (LxcQuotaUsage F)) × Manager)
        → Result (LxcQuotaUsage F) × Manager
        → Result (List (LxcQuotaUsage F)) × Manager
    gathered rest (raise e, m) = (raise e, m)
    gathered rest (ok u, m) =
        let (r, after) = rest m in (elim r [ raise e ↦ raise e | ok us ↦ ok (u ∷ us) ], after)

    unfoldable pub usages : List Str → Manager → Result (List (LxcQuotaUsage F)) × Manager
    usages [] m = (ok [], m)
    usages (tenant_id ∷ ids) m = gathered (usages ids) (get_usage tenant_id m)

    unfoldable pub get_all_usage : Manager → Result (List (LxcQuotaUsage F)) × Manager
    get_all_usage m = usages (keys m.quotas) m
