-- ===== src/Sensors.antt =====
-- backend/sensor_manager.py and the sensor classes of backend/models.py: the types, the limits of
-- the platforms and the detection of the platform. A float is kept as a text. The texts that name
-- the hardware are taken as ASCII, and what the library reads of them is an argument.
pub mod Backends
pub mod Manager
pub mod Limits
pub mod Total
pub mod Reading
pub mod Routes
use minima_pi_net_os.Prelude.{
  str_eq, nat_eq, ℕ, ◌+◌, Str, codes, Bool, true, false, not, ◌&&◌, ◌||◌, Option, none, some, List,
  [], ◌∷◌, leb, any, keep, ◌==◌, if◌then◌else◌,
}
use minima_pi_net_os.Prelude.Int.{ℤ}
use minima_pi_net_os.Prelude.Text.{contains, lower, lstrip, rstrip}
use minima_pi_net_os.Dict.{Dict, get}

pub data SensorBus : Type 0 where
  i2c gpio spi one_wire adc uart : SensorBus

pub data SensorKind : Type 0 where
  temperature humidity pressure light soil_moisture air_quality proximity custom : SensorKind

pub record CustomSensorDef : Type 0 where
  pub id : Str
  pub name : Str
  pub kind : SensorKind
  pub bus : SensorBus
  pub address : Option Str
  pub pin : Option ℤ
  pub spi_channel : Option ℤ
  pub poll_interval : ℤ
  pub unit : Str
  pub min_value : Option Str
  pub max_value : Option Str
  pub enabled : Bool
  pub calibration_offset : Str
  pub calibration_scale : Str
  pub node_id : Option Str

pub record SensorReading : Type 0 where
  pub sensor_id : Str
  pub value : Str
  pub unit : Str
  pub timestamp : Str
  pub raw : Option Str
  pub error : Option Str

pub record PlatformSensorCaps : Type 0 where
  pub platform : Str
  pub max_sensors : ℕ
  pub min_poll_interval : ℕ
  pub i2c_bus : ℕ
  pub supports_spi : Bool
  pub supports_gpio : Bool
  pub supports_one_wire : Bool
  pub supports_adc : Bool
  pub label : Str

-- A platform that supports every bus, as the class has by default.
abbrev caps_of : Str → ℕ → ℕ → Str → PlatformSensorCaps
caps_of platform max_sensors min_poll_interval label = record {
  platform = platform;
  max_sensors = max_sensors;
  min_poll_interval = min_poll_interval;
  i2c_bus = 1;
  supports_spi = true;
  supports_gpio = true;
  supports_one_wire = true;
  supports_adc = true;
  label = label;
}

abbrev generic_caps : PlatformSensorCaps
generic_caps = caps_of (codes "generic") 4 15 (codes "Generic Platform")

abbrev pub platform_caps : Dict Str PlatformSensorCaps
platform_caps =
    (codes "pi5", caps_of (codes "pi5") 16 5 (codes "Raspberry Pi 5"))
    ∷ (codes "pi4", caps_of (codes "pi4") 12 5 (codes "Raspberry Pi 4"))
    ∷ (codes "pi3", caps_of (codes "pi3") 8 10 (codes "Raspberry Pi 3"))
    ∷ (codes "pi2", caps_of (codes "pi2") 6 10 (codes "Raspberry Pi 2"))
    ∷ (codes "pi1", caps_of (codes "pi1") 4 20 (codes "Raspberry Pi 1"))
    ∷ (codes "zero2w", caps_of (codes "zero2w") 4 15 (codes "Raspberry Pi Zero 2 W"))
    ∷ (
      codes "zero",
      record (caps_of (codes "zero") 3 30 (codes "Raspberry Pi Zero")) { supports_adc = false },
    )
    ∷ (codes "cm4", caps_of (codes "cm4") 12 5 (codes "Compute Module 4"))
    ∷ (codes "cm3", caps_of (codes "cm3") 6 10 (codes "Compute Module 3"))
    ∷ (codes "generic", generic_caps)
    ∷ []

unfoldable pub get_platform_caps : Str → PlatformSensorCaps
get_platform_caps platform = elim (get platform platform_caps) [ none ↦ generic_caps | some c ↦ c ]

-- The first rule whose texts are in `s`.
abbrev Rules : Type 0
Rules = List (List Str × Str)

unfoldable pub first_rule : Rules → Str → Option Str
first_rule [] s = none
first_rule ((texts, name) ∷ rules) s =
    if any (λ t. contains t s) texts then some name else first_rule rules s

abbrev pub model_rules : Rules
model_rules =
    (codes "pi 5" ∷ codes "bcm2712" ∷ [], codes "pi5")
    ∷ (codes "pi 4" ∷ codes "bcm2711" ∷ [], codes "pi4")
    ∷ (codes "zero 2" ∷ codes "zero2" ∷ [], codes "zero2w")
    ∷ (codes "pi 3" ∷ codes "bcm2837" ∷ [], codes "pi3")
    ∷ (codes "pi 2" ∷ codes "bcm2836" ∷ [], codes "pi2")
    ∷ (codes "zero" ∷ [], codes "zero")
    ∷ (codes "compute module 4" ∷ codes "cm4" ∷ [], codes "cm4")
    ∷ (codes "compute module 3" ∷ codes "cm3" ∷ [], codes "cm3")
    ∷ (codes "compute module" ∷ [], codes "cm")
    ∷ (codes "pi 1" ∷ codes "model a" ∷ codes "model b" ∷ [], codes "pi1")
    ∷ (codes "raspberry pi" ∷ [], codes "pi")
    ∷ []

abbrev pub cpuinfo_rules : Rules
cpuinfo_rules =
    (codes "bcm2712" ∷ [], codes "pi5")
    ∷ (codes "bcm2711" ∷ [], codes "pi4")
    ∷ (codes "bcm2837" ∷ [], codes "pi3")
    ∷ (codes "bcm2836" ∷ [], codes "pi2")
    ∷ (codes "bcm2835" ∷ [], codes "pi1")
    ∷ []

-- `model.read_text().replace("\x00", "").strip().lower()`
unfoldable pub model_text : Str → Str
unfolding lstrip rstrip lower
model_text text = lower (rstrip (lstrip (keep (λ c. not (c == 0)) text)))

abbrev found_by : Rules → (Str → Str) → Option Str → Option Str
found_by rules clean none = none
found_by rules clean (some s) = first_rule rules (clean s)

-- The files' texts, where they are there and can be read.
unfoldable pub detect_pi_model : Option Str → Option Str → Str
detect_pi_model model cpuinfo = elim (found_by model_rules model_text model) [
  | some name ↦ name
  | none ↦ elim (found_by cpuinfo_rules lower cpuinfo) [ some name ↦ name | none ↦ codes "generic" ]
]
