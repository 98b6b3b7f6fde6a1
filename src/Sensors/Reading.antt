-- ===== src/Sensors/Reading.antt =====
-- The readings that backend/sensor_manager.py answers for a single sensor and for all of them.
use minima_pi_net_os.Prelude.{
  str_eq, ℕ, ◌≡◌, refl, Str, codes, Bool, true, none, some, List, [], ◌∷◌, map, keep, ok, raise,
  value_error, ap, Bool-cases, keep-yes, keep-no, inl, inr, if◌then◌else◌,
}
use minima_pi_net_os.Dict.{values}
use minima_pi_net_os.Sensors.{
  CustomSensorDef, SensorReading, i2c, get_platform_caps, detect_pi_model,
}
use minima_pi_net_os.Sensors.Backends.{
  Host, given, read_i2c, backend, reading, failed, answer, read_sensor,
}
use minima_pi_net_os.Sensors.Manager.{SensorManager, read_each, read_all}
use minima_pi_net_os.Sensors.Total.{IsCalm, Parses, backend-Total}

abbrev pub AllParse : Host → List CustomSensorDef → Type 0
AllParse host [] = Unit
AllParse host (s ∷ ss) = Parses host s × AllParse host ss

-- The readings of these sensors, none of them an error.
abbrev Answered : List CustomSensorDef → List SensorReading → Type 0
Answered ss rs =
    (map (λ r. r.sensor_id) rs ≡ map (λ s. s.id) ss) × (map (λ r. r.error) rs ≡ map (λ s. none) ss)

module _ (host : Host) (ts os_text : Str) where
  read_sensor-answered :
      (s : CustomSensorDef) (v : Str)
      → s.enabled ≡ true
      → backend host s.bus s ≡ ok v
      → read_sensor host ts os_text s ≡ ok (reading ts s v)
  unfolding read_sensor
  read_sensor-answered s v on got =
      let enabled : (b : Bool)
          → b ≡ true
          → (if b
              then answer ts os_text s (backend host s.bus s)
              else ok (failed ts s (codes "sensor disabled")))
            ≡ ok (reading ts s v) =
        λ b yes. rw (yes, got) refl in
      enabled s.enabled on

  read_each-Answered :
      (calm : IsCalm host) (ss : List CustomSensorDef)
      → AllParse host ss
      → (rs : List SensorReading) × (read_each host ts os_text (keep (λ s. s.enabled) ss) ≡ ok rs)
        × Answered (keep (λ s. s.enabled) ss) rs
  unfolding read_each
  read_each-Answered calm [] h = unfold keep in ([], refl, (refl, refl))
  read_each-Answered calm (s ∷ ss) h = elim (Bool-cases s.enabled) [
    | inr off ↦ rw (keep-no (λ x. x.enabled) s ss off) (read_each-Answered calm ss h.1)
    | inl on ↦
        let (v, got) = backend-Total host calm s.bus s h.0 in
        let (rs, all, (ids, errors)) = read_each-Answered calm ss h.1 in
        rw (keep-yes (λ x. x.enabled) s ss on, read_sensor-answered s v on got, all)
          (reading ts s v ∷ rs, refl, (ap (λ is. s.id ∷ is) ids, ap (λ es. none ∷ es) errors))
  ]

  -- Where the packages are installed, the devices fail by no exception but `OSError` and every
  -- sensor's address is a number, a read of all the sensors returns: it has one reading for each
  -- sensor that is enabled, in their order, and none of the readings is an error.
  pub read_all-answered :
      (m : SensorManager)
      → IsCalm host
      → AllParse host (values m.sensors)
      → (rs : List SensorReading) × (read_all host ts os_text m ≡ ok rs)
        × (map (λ r. r.sensor_id) rs ≡ map (λ s. s.id) (keep (λ s. s.enabled) (values m.sensors)))
        × (map (λ r. r.error) rs ≡ map (λ s. none) (keep (λ s. s.enabled) (values m.sensors)))
  unfolding read_all
  read_all-answered m calm parse =
      let (rs, all, (ids, errors)) = read_each-Answered calm (values m.sensors) parse in
      (rs, all, ids, errors)

  -- An enabled I2C sensor whose address is no number makes the read raise `ValueError`, where the
  -- bus is there: the handler of `OSError` does not see it.
  pub read_sensor-raised :
      (s : CustomSensorDef) (a : Str) (handle : ℕ)
      → s.enabled ≡ true
      → s.bus ≡ i2c
      → host.i2c_available ≡ true
      → given s.address ≡ some a
      → host.smbus_open
          (get_platform_caps (detect_pi_model host.model_file host.cpuinfo_file)).i2c_bus
        ≡ ok handle
      → host.parse_int a ≡ raise value_error
      → read_sensor host ts os_text s ≡ raise value_error
  unfolding read_sensor backend read_i2c
  read_sensor-raised s a handle on bus there at opened bad =
      rw (on, bus, backend, there, at, read_i2c, opened, bad) refl
