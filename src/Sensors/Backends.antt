-- ===== src/Sensors/Backends.antt =====
-- The backends of backend/sensor_manager.py. What the devices and their packages do is the record
-- `Host`; the guards, the bytes' arithmetic and the handling of errors are the source's.
use minima_pi_net_os.Prelude.{
  str_eq, ℕ, ◌+◌, ◌*◌, ◌%◌, Str, codes, Bool, true, false, ◌||◌, Option, none, some, List, [], ◌∷◌,
  keep, Result, ok, raise, os_error, ◌>>=◌, if◌then◌else◌,
}
use minima_pi_net_os.Prelude.Int.{ℤ}
use minima_pi_net_os.Prelude.Text.{contains}
use minima_pi_net_os.Sensors.{
  CustomSensorDef, SensorReading, SensorBus, i2c, gpio, spi, one_wire, adc, uart, get_platform_caps,
  detect_pi_model,
}

-- The host's devices: which are there, and what an access to each returns or raises.
pub record Host : Type 0 where
  pub i2c_available : Bool
  pub gpio_available : Bool
  pub spi_available : Bool
  pub w1_available : Bool
  pub serial_exists : Bool
  pub model_file : Option Str
  pub cpuinfo_file : Option Str
  -- the value that `_simulate` draws
  pub simulate : CustomSensorDef → Str
  -- `smbus2.SMBus(bus)`
  pub smbus_open : ℕ → Result ℕ
  -- `int(address, 0)`
  pub parse_int : Str → Result ℕ
  -- the two bytes of `read_i2c_block_data(addr, 0x00, 2)`
  pub smbus_read : ℕ → ℕ → Result (ℕ × ℕ)
  -- `Adafruit_DHT.read_retry(DHT22, pin)`, the humidity
  pub dht_read : ℤ → Result (Option Str)
  -- the last two bytes of the answer to the command for a channel
  pub spi_transfer : ℤ → Result (ℕ × ℕ)
  -- `/sys/bus/w1/devices/28-*`: the names, and what reading `w1_slave` gives
  pub w1_devices : List (Str × Result Str)
  -- the lines of a text that have `t=`, each by what follows the mark
  pub temperature_lines : Str → List Str
  -- `ser.read(9)` after the command
  pub serial_reply : Result (List ℕ)
  -- `round(x * calibration_scale + calibration_offset, 2)`, where x is: the word by 100, the
  -- humidity, the count by 1023 of 3.3 volts, the parsed text by 1000, the ppm
  pub i2c_value : CustomSensorDef → ℕ → Str
  pub dht_value : CustomSensorDef → Str → Str
  pub adc_value : CustomSensorDef → ℕ → Str
  pub w1_value : CustomSensorDef → Str → Result Str
  pub uart_value : CustomSensorDef → ℕ → Str

-- `except OSError`: the fallback in place of the value; another exception passes.
abbrev pub except_os : Str → Result Str → Result Str
except_os fallback (ok v) = ok v
except_os fallback (raise os_error) = ok fallback
except_os fallback (raise e) = raise e

abbrev pub given : Option Str → Option Str
given none = none
given (some []) = none
given (some (c ∷ s)) = some (c ∷ s)

-- The count of ten bits in the two bytes.
unfoldable pub adc_count : ℕ × ℕ → ℕ
adc_count (high, low) = high % 4 * 256 + low

-- The devices whose name has the address in it.
unfoldable pub w1_matches : Str → List (Str × Result Str) → List (Str × Result Str)
w1_matches address = keep (λ d. contains address d.0)

abbrev pub first_or : (Str × Result Str) → List (Str × Result Str) → Str × Result Str
first_or d [] = d
first_or d (e ∷ ds) = e

-- `matches[0]` where the address is given and matches, else the first device.
unfoldable pub w1_target :
    Option Str → (Str × Result Str) → List (Str × Result Str) → Str × Result Str
w1_target none first devices = first
w1_target (some address) first devices = first_or first (w1_matches address devices)

-- The reply's bytes 2 and 3 as a number, where there are nine.
unfoldable pub co2_of : List ℕ → Option ℕ
co2_of (a ∷ b ∷ c ∷ d ∷ e ∷ f ∷ g ∷ h ∷ i ∷ more) = some (c * 256 + d)
co2_of _ = none

abbrev pub is_spi : SensorBus → Bool
is_spi spi = true
is_spi _ = false

abbrev pub is_given : Option ℤ → Bool
is_given none = false
is_given (some i) = true

abbrev pub failed : Str → CustomSensorDef → Str → SensorReading
failed ts s error = record {
  sensor_id = s.id;
  value = codes "0.0";
  unit = s.unit;
  timestamp = ts;
  raw = none;
  error = some error;
}

abbrev pub reading : Str → CustomSensorDef → Str → SensorReading
reading ts s value = record {
  sensor_id = s.id;
  value = value;
  unit = s.unit;
  timestamp = ts;
  raw = some value;
  error = none;
}

-- `os_text` is the text of a caught `OSError`.
abbrev pub answer : Str → Str → CustomSensorDef → Result Str → Result SensorReading
answer ts os_text s (ok value) = ok (reading ts s value)
answer ts os_text s (raise os_error) = ok (failed ts s os_text)
answer ts os_text s (raise e) = raise e

module _ (host : Host) where
  unfoldable pub read_i2c : CustomSensorDef → Result Str
  read_i2c s = elim (if host.i2c_available then given s.address else none) [
    | none ↦ ok (host.simulate s)
    | some address ↦
        let bus = (get_platform_caps (detect_pi_model host.model_file host.cpuinfo_file)).i2c_bus in
        except_os (host.simulate s) (
          host.smbus_open bus >>= λ handle. host.parse_int address >>= λ addr.
          host.smbus_read handle addr >>= λ bytes. ok (host.i2c_value s (bytes.0 * 256 + bytes.1)))
  ]

  abbrev pub dht_or : CustomSensorDef → Option Str → Str
  dht_or s none = host.simulate s
  dht_or s (some humidity) = host.dht_value s humidity

  unfoldable pub read_gpio : CustomSensorDef → Result Str
  read_gpio s = elim (if host.gpio_available then s.pin else none) [
    | none ↦ ok (host.simulate s)
    | some pin ↦ except_os (host.simulate s) (host.dht_read pin >>= λ h. ok (dht_or s h))
  ]

  unfoldable pub read_spi : CustomSensorDef → Result Str
  read_spi s = elim (if host.spi_available then s.spi_channel else none) [
    | none ↦ ok (host.simulate s)
    | some channel ↦
        except_os (host.simulate s)
          (host.spi_transfer channel >>= λ reply. ok (host.adc_value s (adc_count reply)))
  ]

  abbrev pub w1_reading : CustomSensorDef → List Str → Result Str
  w1_reading s [] = ok (host.simulate s)
  w1_reading s (line ∷ lines) = host.w1_value s line

  unfoldable pub read_w1 : CustomSensorDef → Result Str → Result Str
  read_w1 s text = except_os (host.simulate s) (
      text >>= λ slave.
      if contains (codes "YES") slave
      then w1_reading s (host.temperature_lines slave)
      else ok (host.simulate s))

  unfoldable pub read_one_wire : CustomSensorDef → Result Str
  read_one_wire s = elim (if host.w1_available then host.w1_devices else []) [
    | [] ↦ ok (host.simulate s)
    | first ∷ more ↦ read_w1 s (w1_target (given s.address) first (first ∷ more)).1
  ]

  unfoldable pub read_adc : CustomSensorDef → Result Str
  read_adc s = if is_spi s.bus || is_given s.spi_channel then read_spi s else read_i2c s

  abbrev pub uart_or : CustomSensorDef → Option ℕ → Str
  uart_or s none = host.simulate s
  uart_or s (some ppm) = host.uart_value s ppm

  unfoldable pub read_uart : CustomSensorDef → Result Str
  read_uart s =
      if host.serial_exists
      then except_os (host.simulate s)
          (host.serial_reply >>= λ reply. ok (uart_or s (co2_of reply)))
      else ok (host.simulate s)

  -- `_BACKENDS`
  unfoldable pub backend : SensorBus → CustomSensorDef → Result Str
  backend i2c s = read_i2c s
  backend gpio s = read_gpio s
  backend spi s = read_spi s
  backend one_wire s = read_one_wire s
  backend adc s = read_adc s
  backend uart s = read_uart s

  unfoldable pub read_sensor : Str → Str → CustomSensorDef → Result SensorReading
  read_sensor ts os_text s =
      if s.enabled
      then answer ts os_text s (backend s.bus s)
      else ok (failed ts s (codes "sensor disabled"))
