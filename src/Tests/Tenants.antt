-- ===== src/Tests/Tenants.antt =====
-- backend/lxc_manager.py on a node whose kernel refuses every write.
use minima_pi_net_os.Prelude.{str_eq, Str, codes, true, List, [], ◌∷◌}
use minima_pi_net_os.Prelude.Int.{pos}
use minima_pi_net_os.Lxc.{LxcQuota, Host, set_cpu_limit}
use minima_pi_net_os.Lxc.Stored.{Operation, create, update, delete}

abbrev quota : Str → LxcQuota
quota tenant = record {
  tenant_id = tenant;
  container_name = [];
  cpu_limit = pos 50;
  ram_limit_mb = pos 512;
  disk_limit_gb = pos 10;
  io_iops = pos 1000;
  network_mbps = pos 100;
  processes_max = pos 512;
  enabled = true;
  created_at = [];
}

abbrev host : Host
host = record {
  lxc_available = true;
  cgroup_v2 = true;
  max_tenants = 2;
  sha256 = λ s. s;
  resolve = λ p. p;
  refuses_mkdir = λ p. true;
  refuses_write = λ p. true;
  removable = λ p. true;
}

abbrev uses : List Operation
uses =
    create (codes "t0") (quota (codes "a"))
    ∷ create (codes "t1") (quota (codes "b"))
    ∷ update (codes "b") (set_cpu_limit (pos 90) ∷ [])
    ∷ delete (codes "a")
    ∷ []
