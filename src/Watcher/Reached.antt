-- ===== src/Watcher/Reached.antt =====
-- What holds of the task of backend/cpip_watcher.py in every state that can be reached.
use minima_pi_net_os.Prelude.{◌+◌, ◌≤◌, ◌≡◌, true}
use minima_pi_net_os.Watcher.{Watcher}
use minima_pi_net_os.Watcher.Moves.{Moves, NeverStopped}
use minima_pi_net_os.Watcher.Ends.{Ends}
use minima_pi_net_os.Watcher.Loop.{sleeping, System}

-- Every check counts at most one update or error, and no end of the loop was announced.
pub record IsCounted (s : Watcher) : Type 0 where
  pub spent : s.update_count + s.error_count ≤ s.check_count
  pub clean : NeverStopped s.broadcast_log

-- The task sleeps only while the watcher runs.
pub record IsOrderly (y : System) : Type 0 where
  pub counts : IsCounted y.watcher
  pub awake : y.task ≡ sleeping → y.watcher.running ≡ true
