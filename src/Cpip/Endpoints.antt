-- ===== src/Cpip/Endpoints.antt =====
-- The backend's own endpoints under the defence of backend/cpip_provider.py. The paths are those of
-- backend/routes, under the prefix /api of backend/main.py.
use minima_pi_net_os.Prelude.{text_eq, str_eq, nat_eq, ◌≡◌, Str, codes, true, List, [], ◌∷◌}
use minima_pi_net_os.Cpip.Defense.{Defense, hits_scanner_path}

abbrev pub login : Str
login = codes "/api/auth/login"

abbrev pub install_dapp : Str
install_dapp = codes "/api/dapps/install"

abbrev pub cluster_exec : Str
cluster_exec = codes "/api/cluster/exec"

abbrev pub cluster_exec_local : Str
cluster_exec_local = codes "/api/cluster/exec-local"

abbrev pub minima_cmd : Str
minima_cmd = codes "/api/minima/cmd"

abbrev pub minima_backup : Str
minima_backup = codes "/api/minima/backup"

abbrev pub ssl_install_ca : Str
ssl_install_ca = codes "/api/ssl/install-ca"

abbrev pub own_endpoints : List Str
own_endpoints =
    login ∷ install_dapp ∷ cluster_exec ∷ cluster_exec_local ∷ minima_cmd ∷ minima_backup
    ∷ ssl_install_ca ∷ []

abbrev AllHit : List Str → Type 0
AllHit [] = Unit
AllHit (p ∷ ps) = (hits_scanner_path p ≡ true) × AllHit ps
