-- ===== src/Lxc/Stored.antt =====
-- The tenants of backend/lxc_manager.py over a sequence of operations, and stored and loaded again.
use minima_pi_net_os.Prelude.{str_eq, ℕ, ◌≤◌, Str, List, [], ◌∷◌, length}
use minima_pi_net_os.Dict.{Dict}
use minima_pi_net_os.Dict.Distinct.{IsDistinct}
use minima_pi_net_os.Dict.Rebuild.{IsKeyed}
use minima_pi_net_os.Lxc.{
  LxcQuota, Host, Manager, Update, set_tenant_id, create_tenant, update_quota, remove_tenant,
}

abbrev tenant_of : LxcQuota → Str
tenant_of q = q.tenant_id

pub record IsTidy (max_tenants : ℕ) (d : Dict Str LxcQuota) : Type 0 where
  pub bounded : length d ≤ max_tenants
  pub keyed : IsKeyed tenant_of d
  pub distinct : IsDistinct d

pub data Operation : Type 0 where
  create : Str → LxcQuota → Operation
  update : Str → List Update → Operation
  delete : Str → Operation

-- The update does not rename the tenant.
abbrev pub KeepsName : Update → Type 0
KeepsName (set_tenant_id v) = ⊥
KeepsName _ = Unit

abbrev pub AllKeep : List Update → Type 0
AllKeep [] = Unit
AllKeep (u ∷ us) = KeepsName u × AllKeep us

abbrev pub RenamesNone : List Operation → Type 0
RenamesNone [] = Unit
RenamesNone (update t us ∷ ops) = AllKeep us × RenamesNone ops
RenamesNone (create now q ∷ ops) = RenamesNone ops
RenamesNone (delete t ∷ ops) = RenamesNone ops

module _ (host : Host) where
  unfoldable pub step : Operation → Manager → Manager
  step (create now q) m = (create_tenant host now q m).1
  step (update t us) m = (update_quota host t us m).1
  step (delete t) m = (remove_tenant host t m).1

  unfoldable pub run : List Operation → Manager → Manager
  run [] m = m
  run (op ∷ ops) m = run ops (step op m)
