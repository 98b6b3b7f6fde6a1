-- ===== src/Tests/Sensors.antt =====
-- backend/sensor_manager.py and backend/routes/sensors.py on a Pi Zero 2 W without devices.
use minima_pi_net_os.Prelude.{
  str_eq, str_beq, nat_eq, ◌<◌, length, ◌≡◌, refl, sym, raise-injective, Str, codes, true, false,
  Option, none, some, [], ◌∷◌, keep, any, ok, raise, os_error, arith,
}
use minima_pi_net_os.Prelude.Int.{pos}
use minima_pi_net_os.Prelude.Text.{contains, starts_with, lower, lstrip, rstrip}
use minima_pi_net_os.Dict.{get}
use minima_pi_net_os.Sensors.{
  CustomSensorDef, i2c, temperature, get_platform_caps, detect_pi_model, first_rule, model_text,
}
use minima_pi_net_os.Sensors.Backends.{Host}
use minima_pi_net_os.Sensors.Manager.{SensorManager}
use minima_pi_net_os.Sensors.Total.{IsCalm}

abbrev probe : CustomSensorDef
probe = record {
  id = codes "s1";
  name = codes "shed";
  kind = temperature;
  bus = i2c;
  address = some (codes "0x76");
  pin = none;
  spi_channel = none;
  poll_interval = pos 1;
  unit = codes "C";
  min_value = none;
  max_value = none;
  enabled = true;
  calibration_offset = codes "0.0";
  calibration_scale = codes "1.0";
  node_id = none;
}

abbrev zero_2 : Option Str
zero_2 = some (codes "Raspberry Pi Zero 2 W Rev 1.0")

zero_2_detected : detect_pi_model zero_2 none ≡ codes "zero2w"
unfolding detect_pi_model model_text first_rule contains starts_with lower lstrip rstrip keep any
zero_2_detected = refl

-- A host with an I2C bus that answers, and no other device.
abbrev host : Host
host = record {
  i2c_available = true;
  gpio_available = false;
  spi_available = false;
  w1_available = false;
  serial_exists = false;
  model_file = zero_2;
  cpuinfo_file = none;
  simulate = λ s. codes "22.5";
  smbus_open = λ bus. ok 7;
  parse_int = λ a. ok 118;
  smbus_read = λ handle addr. raise os_error;
  dht_read = λ pin. ok none;
  spi_transfer = λ channel. ok (0, 0);
  w1_devices = [];
  temperature_lines = λ slave. [];
  serial_reply = ok [];
  i2c_value = λ s n. codes "1.0";
  dht_value = λ s h. h;
  adc_value = λ s n. codes "1.0";
  w1_value = λ s t. ok t;
  uart_value = λ s n. codes "1.0";
}

host-IsCalm : IsCalm host
host-IsCalm = record {
  opens = λ bus x h. absurd (cc);
  reads = λ handle addr x h. sym (raise-injective h);
  dht = λ pin x h. absurd (cc);
  transfers = λ channel x h. absurd (cc);
  w1_parses = λ s slave x h. absurd (cc);
  w1_files = tt;
  replies = λ x h. absurd (cc);
}

abbrev one_sensor : SensorManager
one_sensor = record {
  sensors = (codes "s1", probe) ∷ [];
  platform = codes "zero2w";
  caps = get_platform_caps (codes "zero2w");
}

abbrev no_sensor : SensorManager
no_sensor = record one_sensor { sensors = [] }

nothing_there : get (codes "s1") no_sensor.sensors ≡ none
unfolding get
nothing_there = refl

room : length no_sensor.sensors < no_sensor.caps.max_sensors
unfolding get_platform_caps get str_beq
room = omega arith
