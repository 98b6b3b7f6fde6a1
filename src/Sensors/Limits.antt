-- ===== src/Sensors/Limits.antt =====
-- The limits of the platform that backend/sensor_manager.py keeps.
use minima_pi_net_os.Prelude.{str_eq, ◌≤◌, Str, List, [], ◌∷◌, length}
use minima_pi_net_os.Prelude.Int.{pos, ◌≤ℤ◌}
use minima_pi_net_os.Dict.{AllValues}
use minima_pi_net_os.Sensors.{CustomSensorDef, PlatformSensorCaps}
use minima_pi_net_os.Sensors.Manager.{
  SensorManager, Update, add_sensor, update_sensor, remove_sensor,
}

-- The limits of every platform that the table has.
abbrev pub IsModest : PlatformSensorCaps → Type 0
IsModest c =
    (3 ≤ c.max_sensors)
    × (c.max_sensors ≤ 16)
    × (5 ≤ c.min_poll_interval)
    × (c.min_poll_interval ≤ 30)

pub record IsWithin (m : SensorManager) : Type 0 where
  pub bounded : length m.sensors ≤ m.caps.max_sensors
  pub paced : AllValues (λ s. pos m.caps.min_poll_interval ≤ℤ s.poll_interval) m.sensors

pub data Operation : Type 0 where
  add : CustomSensorDef → Operation
  update : Str → List Update → Operation
  delete : Str → Operation

unfoldable pub step : Operation → SensorManager → SensorManager
step (add s) m = (add_sensor s m).1
step (update sensor_id updates) m = (update_sensor sensor_id updates m).1
step (delete sensor_id) m = (remove_sensor sensor_id m).1

unfoldable pub run : List Operation → SensorManager → SensorManager
run [] m = m
run (op ∷ ops) m = run ops (step op m)
