-- ===== src/Sensors/Manager.antt =====
-- `SensorManager` of backend/sensor_manager.py. An update is the list of the members that it sets,
-- with values of their types; what pydantic makes of a stored item is an argument of `from_state`.
use minima_pi_net_os.Prelude.{
  str_eq, ℕ, Str, Bool, Option, List, [], ◌∷◌, length, keep, map, leb, Result, ok, raise,
  value_error, ◌>>=◌, if◌then◌else◌,
}
use minima_pi_net_os.Prelude.Int.{ℤ, pos, max_ℤ}
use minima_pi_net_os.Dict.{Dict, get, put, remove, has, values}
use minima_pi_net_os.Dict.Change.{change}
use minima_pi_net_os.Dict.Rebuild.{load_all}
use minima_pi_net_os.Sensors.{
  CustomSensorDef, SensorReading, SensorBus, SensorKind, PlatformSensorCaps, get_platform_caps,
  detect_pi_model,
}
use minima_pi_net_os.Sensors.Backends.{Host, read_sensor}

pub record SensorManager : Type 0 where
  pub sensors : Dict Str CustomSensorDef
  pub platform : Str
  pub caps : PlatformSensorCaps

-- `configured` is the environment's `PINET_SENSOR_PLATFORM`, empty where it is not set.
abbrev pub platform_of : Str → Str → Str
platform_of [] detected = detected
platform_of (c ∷ s) detected = c ∷ s

unfoldable pub init : Str → Option Str → Option Str → SensorManager
init configured model cpuinfo =
    let platform = platform_of configured (detect_pi_model model cpuinfo) in
    record { sensors = []; platform = platform; caps = get_platform_caps platform }

unfoldable pub list_sensors : SensorManager → List CustomSensorDef
list_sensors m = values m.sensors

unfoldable pub get_sensor : Str → SensorManager → Option CustomSensorDef
get_sensor sensor_id m = get sensor_id m.sensors

-- `sensor.poll_interval = max(sensor.poll_interval, self._caps.min_poll_interval)`
abbrev pub floored : ℕ → CustomSensorDef → CustomSensorDef
floored least s = record s { poll_interval = max_ℤ s.poll_interval (pos least) }

unfoldable pub add_sensor : CustomSensorDef → SensorManager → Result CustomSensorDef × SensorManager
add_sensor s m = if leb m.caps.max_sensors (length m.sensors) then (raise value_error, m) else (
  ok (floored m.caps.min_poll_interval s),
  record m { sensors = put s.id (floored m.caps.min_poll_interval s) m.sensors },
)

-- One `setattr`; a key that names no member is left out, as the code does.
pub data Update : Type 0 where
  set_id set_name set_unit set_calibration_offset set_calibration_scale : Str → Update
  set_kind : SensorKind → Update
  set_bus : SensorBus → Update
  set_address set_min_value set_max_value set_node_id : Option Str → Update
  set_pin set_spi_channel : Option ℤ → Update
  set_poll_interval : ℤ → Update
  set_enabled : Bool → Update

abbrev pub set : Update → CustomSensorDef → CustomSensorDef
set (set_id v) s = record s { id = v }
set (set_name v) s = record s { name = v }
set (set_unit v) s = record s { unit = v }
set (set_calibration_offset v) s = record s { calibration_offset = v }
set (set_calibration_scale v) s = record s { calibration_scale = v }
set (set_kind v) s = record s { kind = v }
set (set_bus v) s = record s { bus = v }
set (set_address v) s = record s { address = v }
set (set_min_value v) s = record s { min_value = v }
set (set_max_value v) s = record s { max_value = v }
set (set_node_id v) s = record s { node_id = v }
set (set_pin v) s = record s { pin = v }
set (set_spi_channel v) s = record s { spi_channel = v }
set (set_poll_interval v) s = record s { poll_interval = v }
set (set_enabled v) s = record s { enabled = v }

unfoldable pub set_all : List Update → CustomSensorDef → CustomSensorDef
set_all [] s = s
set_all (u ∷ us) s = set_all us (set u s)

unfoldable pub update_sensor :
    Str → List Update → SensorManager → Result CustomSensorDef × SensorManager
update_sensor sensor_id updates m =
    let (r, sensors) =
      change sensor_id (λ s. floored m.caps.min_poll_interval (set_all updates s)) m.sensors in
    (r, record m { sensors = sensors })

unfoldable pub remove_sensor : Str → SensorManager → Bool × SensorManager
remove_sensor sensor_id m =
    (has sensor_id m.sensors, record m { sensors = remove sensor_id m.sensors })

module _ (host : Host) where
  unfoldable pub read_each : Str → Str → List CustomSensorDef → Result (List SensorReading)
  read_each ts os_text [] = ok []
  read_each ts os_text (s ∷ ss) =
      read_sensor host ts os_text s >>= λ r. read_each ts os_text ss >>= λ rs. ok (r ∷ rs)

  unfoldable pub read_all : Str → Str → SensorManager → Result (List SensorReading)
  read_all ts os_text m = read_each ts os_text (keep (λ s. s.enabled) (values m.sensors))

unfoldable pub to_state {ℓ} : {Item : Type ℓ} → (CustomSensorDef → Item) → SensorManager → List Item
to_state dump m = map dump (values m.sensors)

-- `build` is `CustomSensorDef(**item)`.
unfoldable pub from_state {ℓ} :
    {Item : Type ℓ} → (Item → Option CustomSensorDef) → List Item → SensorManager → SensorManager
from_state build items m = record m { sensors = load_all (λ s. s.id) build items [] }
