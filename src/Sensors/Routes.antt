-- ===== src/Sensors/Routes.antt =====
-- The handlers of backend/routes/sensors.py. An answer is the value that the handler returns, and
-- `http n` is the error answer of that status.
use minima_pi_net_os.Prelude.{
  str_eq, ℕ, ◌<◌, ◌≡◌, refl, Str, false, Option, none, some, List, length, Result, ok, raise, http,
  key_error, value_error, bad_value, arith, leb, if◌then◌else◌,
}
use minima_pi_net_os.Dict.{get, put, get-put_self}
use minima_pi_net_os.Sensors.{CustomSensorDef, SensorReading}
use minima_pi_net_os.Sensors.Backends.{Host, read_sensor as sense}
use minima_pi_net_os.Sensors.Manager.{
  SensorManager, Update, floored, get_sensor as find_sensor, list_sensors as find_sensors,
  add_sensor, update_sensor as change_sensor, remove_sensor as drop_sensor,
}

-- `except (KeyError, ValueError)`, answered by 400
abbrev pub bad_request {ℓ} : {A : Type ℓ} → Result A → Result A
bad_request (ok a) = ok a
bad_request (raise value_error) = raise (http 400)
bad_request (raise key_error) = raise (http 400)
bad_request (raise e) = raise e

abbrev found {ℓ} : {A : Type ℓ} → Option A → Result A
found none = raise (http 404)
found (some a) = ok a

-- The sensors, their number and the platform
unfoldable pub list_sensors : SensorManager → List CustomSensorDef × ℕ × Str
list_sensors m = (find_sensors m, length (find_sensors m), m.platform)

unfoldable pub create_sensor :
    CustomSensorDef → SensorManager → Result CustomSensorDef × SensorManager
create_sensor s m = elim (find_sensor s.id m) [
  | some old ↦ (raise (http 409), m)
  | none ↦ let (r, after) = add_sensor s m in (bad_value r, after)
]

unfoldable pub get_sensor : Str → SensorManager → Result CustomSensorDef
get_sensor sensor_id m = found (find_sensor sensor_id m)

unfoldable pub update_sensor :
    Str → List Update → SensorManager → Result CustomSensorDef × SensorManager
update_sensor sensor_id updates m = elim (find_sensor sensor_id m) [
  | none ↦ (raise (http 404), m)
  | some old ↦ let (r, after) = change_sensor sensor_id updates m in (bad_request r, after)
]

unfoldable pub delete_sensor : Str → SensorManager → Result Str × SensorManager
delete_sensor sensor_id m =
    let (removed, after) = drop_sensor sensor_id m in
    (if removed then ok sensor_id else raise (http 404), after)

unfoldable pub read_sensor : Host → Str → Str → Str → SensorManager → Result SensorReading
read_sensor host ts os_text sensor_id m = elim (find_sensor sensor_id m) [
  | none ↦ raise (http 404)
  | some s ↦ sense host ts os_text s
]

abbrev added : CustomSensorDef → SensorManager → SensorManager
added s m = record m { sensors = put s.id (floored m.caps.min_poll_interval s) m.sensors }

create_sensor-new :
    (s : CustomSensorDef) (m : SensorManager)
    → get s.id m.sensors ≡ none
    → length m.sensors < m.caps.max_sensors
    → create_sensor s m ≡ (ok (floored m.caps.min_poll_interval s), added s m)
unfolding create_sensor find_sensor add_sensor
create_sensor-new s m fresh room =
    let free : leb m.caps.max_sensors (length m.sensors) ≡ false = ground arith in
    rw (fresh, create_sensor, free) refl

create_sensor-taken :
    (t : CustomSensorDef) (m : SensorManager) (old : CustomSensorDef)
    → get t.id m.sensors ≡ some old
    → create_sensor t m ≡ (raise (http 409), m)
unfolding create_sensor find_sensor
create_sensor-taken t m old at = rw (at, create_sensor) refl

-- A sensor of a new identifier is created where the platform has room: it is then there with its
-- interval raised to the platform's least, and creating one of that identifier again answers 409
-- and changes nothing.
pub create-twice :
    (s t : CustomSensorDef) (m : SensorManager)
    → get s.id m.sensors ≡ none
    → length m.sensors < m.caps.max_sensors
    → t.id ≡ s.id
    → let (r, after) = create_sensor s m in
      (r ≡ ok (floored m.caps.min_poll_interval s))
      × (get_sensor s.id after ≡ ok (floored m.caps.min_poll_interval s))
      × (create_sensor t after ≡ (raise (http 409), after))
unfolding get_sensor find_sensor
create-twice s t m fresh room same =
    let there = get-put_self s.id (floored m.caps.min_poll_interval s) m.sensors in
    rw (create_sensor-new s m fresh room) (
      refl,
      rw there refl,
      create_sensor-taken t (added s m) (floored m.caps.min_poll_interval s)
          (rw (same, there) refl),
    )
