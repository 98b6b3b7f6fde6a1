-- ===== src/Watcher/Loop.antt =====
-- The task of backend/cpip_watcher.py: `_watcher_loop`, `start_watcher`, `stop_watcher` and
-- `force_check_now`. The loop waits in its sleep only, so that a step is all that is done between two
-- waits; a stop cancels the task there, or before it has begun.
use minima_pi_net_os.Prelude.{
  ℕ, ◌+◌, ◌≡◌, codes, Bool, true, false, ◌&&◌, Option, none, some, Result, ok, raise, if◌then◌else◌,
}
use minima_pi_net_os.Watcher.{
  Surroundings, Watcher, watcher_started, watcher_error, watcher_stopped, broadcast_event,
  write_version_file, subscribe_sse, unsubscribe_sse,
}
use minima_pi_net_os.Watcher.Iteration.{watch_iteration}

-- No task, one that was created, one that sleeps, and one that has ended by itself.
pub data Task : Type 0 where
  no_task created sleeping done : Task

pub record System : Type 0 where
  pub watcher : Watcher
  pub task : Task

module _ (w : Surroundings) where
  -- `except Exception` of the loop
  abbrev pub recovered : Result (Unit {0}) × Watcher → Watcher
  recovered (ok u, s) = s
  recovered (raise e, s) =
      broadcast_event w watcher_error (record s {
        error_count = s.error_count + 1;
        last_error = codes "Watcher iteration failed";
      })

  unfoldable pub loop_round : Watcher → Watcher
  loop_round s = recovered (watch_iteration w s)

  unfoldable pub loop_start : Watcher → Watcher
  loop_start s = broadcast_event w (watcher_started w.world.cpip_version w.poll_interval) (
      write_version_file w w.world.cpip_version
        (record s { running = true; last_version = w.world.cpip_version }))

  abbrev pub is_live : Task → Bool
  is_live created = true
  is_live sleeping = true
  is_live no_task = false
  is_live done = false

  unfoldable pub start_watcher : Bool → System → System
  start_watcher watcher_enabled y =
      if watcher_enabled && w.world.cpip_enabled
      then (if is_live y.task then y else record y { task = created })
      else y

  unfoldable pub stop_watcher : System → System
  stop_watcher y = record { watcher = record y.watcher { running = false }; task = no_task }

  -- Its answer: the checks so far, or an error.
  abbrev pub forced : Result (Unit {0}) × Watcher → Option ℕ × Watcher
  forced (ok u, s) = (some s.check_count, s)
  forced (raise e, s) = (none, s)

  unfoldable pub force_check_now : Watcher → Option ℕ × Watcher
  force_check_now s = forced (watch_iteration w s)

-- What can happen, in any order and in any surroundings.
pub data Step : System → System → Type 0 where
  start : (w : Surroundings) (enabled : Bool) (y : System) → Step y (start_watcher w enabled y)
  begin :
      (w : Surroundings) (s : Watcher)
      → Step
          (record { watcher = s; task = created })
          (record { watcher = loop_round w (loop_start w s); task = sleeping })
  wake :
      (w : Surroundings) (s : Watcher)
      → s.running ≡ true
      → Step
          (record { watcher = s; task = sleeping })
          (record { watcher = loop_round w s; task = sleeping })
  leave :
      (w : Surroundings) (s : Watcher)
      → s.running ≡ false
      → Step
          (record { watcher = s; task = sleeping })
          (record { watcher = broadcast_event w watcher_stopped s; task = done })
  stop : (w : Surroundings) (y : System) → Step y (stop_watcher w y)
  force :
      (w : Surroundings) (y : System)
      → Step y (record y { watcher = (force_check_now w y.watcher).1 })
  subscribe : (c : ℕ) (y : System) → Step y (record y { watcher = subscribe_sse c y.watcher })
  unsubscribe : (c : ℕ) (y : System) → Step y (record y { watcher = unsubscribe_sse c y.watcher })

pub data Reach (x : System) : System → Type 0 where
  here : Reach x x
  later : {y z : System} → Reach x y → Step y z → Reach x z
