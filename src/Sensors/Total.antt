-- ===== src/Sensors/Total.antt =====
-- When the backends of backend/sensor_manager.py give a value.
use minima_pi_net_os.Prelude.{
  codes, ◌||◌, str_eq, ℕ, ◌≡◌, refl, Str, Option, none, some, List, [], ◌∷◌, keep, Exc, Result, ok,
  raise, os_error, ◌>>=◌, ap, raise-injective, Bool-cases, Option-cases, inl, inr, if◌then◌else◌,
}
use minima_pi_net_os.Prelude.Int.{ℤ}
use minima_pi_net_os.Prelude.Text.{contains}
use minima_pi_net_os.Sensors.{CustomSensorDef, SensorBus, i2c, gpio, spi, one_wire, adc, uart}
use minima_pi_net_os.Sensors.Backends.{
  Host, except_os, given, read_i2c, read_gpio, read_spi, read_one_wire, read_w1, read_adc,
  read_uart, w1_target, w1_matches, first_or, w1_reading, is_spi, is_given, backend,
}

-- It fails in no other way than by `OSError`.
abbrev pub OnlyOs {ℓ} : {A : Type ℓ} → Result A → Type ℓ
OnlyOs {A = A} r = (x : Exc) → Path (Result A) r (raise x) → x ≡ os_error

ok-OnlyOs {ℓ} : {A : Type ℓ} (a : A) → OnlyOs (ok a)
ok-OnlyOs a x h = absurd (cc)

bind-OnlyOs {ℓ κ} :
    {A : Type ℓ} {B : Type κ} (r : Result A) (f : A → Result B)
    → OnlyOs r
    → ((a : A) → OnlyOs (f a))
    → OnlyOs (r >>= f)
bind-OnlyOs (ok a) f h k = k a
bind-OnlyOs (raise e) f h k = λ x same. h x (ap raise (raise-injective same))

-- The `except` then gives a value whatever happens.
except_os-total :
    (fallback : Str) (r : Result Str) → OnlyOs r → (v : Str) × (except_os fallback r ≡ ok v)
except_os-total fallback (ok v) h = (v, refl)
except_os-total fallback (raise e) h = rw (h e refl) (fallback, refl)

abbrev pub AllFiles : List (Str × Result Str) → Type 0
AllFiles [] = Unit
AllFiles (d ∷ ds) = OnlyOs d.1 × AllFiles ds

AllFiles-matches :
    (a : Str) (ds : List (Str × Result Str)) → AllFiles ds → AllFiles (w1_matches a ds)
unfolding w1_matches keep
AllFiles-matches a [] h = tt
AllFiles-matches a (d ∷ ds) h = elim (Bool-cases (contains a d.0)) [
  | inl found ↦ rw found (h.0, AllFiles-matches a ds h.1)
  | inr other ↦ rw other (AllFiles-matches a ds h.1)
]

first_or-OnlyOs :
    (d : Str × Result Str) (ds : List (Str × Result Str))
    → OnlyOs d.1
    → AllFiles ds
    → OnlyOs (first_or d ds).1
first_or-OnlyOs d [] h k = h
first_or-OnlyOs d (e ∷ ds) h k = k.0

w1_target-OnlyOs :
    (a : Option Str) (d : Str × Result Str) (ds : List (Str × Result Str))
    → AllFiles (d ∷ ds)
    → OnlyOs (w1_target a d (d ∷ ds)).1
unfolding w1_target
w1_target-OnlyOs none d ds h = h.0
w1_target-OnlyOs (some a) d ds h =
    first_or-OnlyOs d (w1_matches a (d ∷ ds)) h.0 (AllFiles-matches a (d ∷ ds) h)

-- The packages are installed, and the devices fail by `OSError` alone. The addresses are those of
-- the sensors that are read: `int(address, 0)` raises `ValueError` on a text that is no number.
pub record IsCalm (host : Host) : Type 0 where
  pub opens : (bus : ℕ) → OnlyOs (host.smbus_open bus)
  pub reads : (handle addr : ℕ) → OnlyOs (host.smbus_read handle addr)
  pub dht : (pin : ℤ) → OnlyOs (host.dht_read pin)
  pub transfers : (channel : ℤ) → OnlyOs (host.spi_transfer channel)
  pub w1_parses :
      (s : CustomSensorDef) (slave : Str)
      → OnlyOs (w1_reading host s (host.temperature_lines slave))
  pub w1_files : AllFiles host.w1_devices
  pub replies : OnlyOs host.serial_reply

module _ (host : Host) where
  -- The sensor's address, where it has one, is the text of a number.
  abbrev pub Parses : CustomSensorDef → Type 0
  Parses s = (a : Str) → given s.address ≡ some a → OnlyOs (host.parse_int a)

  abbrev pub Total : Result Str → Type 0
  Total r = (v : Str) × (r ≡ ok v)

  module _ (calm : IsCalm host) where
    i2c-Total : (s : CustomSensorDef) → Parses s → Total (read_i2c host s)
    unfolding read_i2c
    i2c-Total s parses = elim (Bool-cases host.i2c_available) [
      | inr off ↦ rw (off, read_i2c) (host.simulate s, refl)
      | inl on ↦ elim (Option-cases (given s.address)) [
        | inl gone ↦ rw (on, gone, read_i2c) (host.simulate s, refl)
        | inr (a, at) ↦
            rw (on, at, read_i2c)
              (except_os-total (host.simulate s) _ (
                bind-OnlyOs (host.smbus_open _) _ (calm.opens _) (λ handle.
                  bind-OnlyOs (host.parse_int a) _ (parses a at) (λ addr.
                    bind-OnlyOs (host.smbus_read handle addr) _ (calm.reads handle addr)
                      (λ b. ok-OnlyOs _)))))
      ]
    ]

    gpio-Total : (s : CustomSensorDef) → Total (read_gpio host s)
    unfolding read_gpio
    gpio-Total s = elim (Option-cases (if host.gpio_available then s.pin else none)) [
      | inl gone ↦ rw (gone, read_gpio) (host.simulate s, refl)
      | inr (pin, at) ↦
          rw (at, read_gpio)
            (except_os-total (host.simulate s) _
              (bind-OnlyOs (host.dht_read pin) _ (calm.dht pin) (λ h. ok-OnlyOs _)))
    ]

    spi-Total : (s : CustomSensorDef) → Total (read_spi host s)
    unfolding read_spi
    spi-Total s = elim (Option-cases (if host.spi_available then s.spi_channel else none)) [
      | inl gone ↦ rw (gone, read_spi) (host.simulate s, refl)
      | inr (channel, at) ↦
          rw (at, read_spi)
            (except_os-total (host.simulate s) _ (
              bind-OnlyOs (host.spi_transfer channel) _ (calm.transfers channel)
                (λ reply. ok-OnlyOs _)))
    ]

    slave-OnlyOs :
        (s : CustomSensorDef) (slave : Str)
        → OnlyOs (
            if contains (codes "YES") slave
            then w1_reading host s (host.temperature_lines slave)
            else ok (host.simulate s))
    slave-OnlyOs s slave = elim (Bool-cases (contains (codes "YES") slave)) [
      | inl marked ↦ rw marked (calm.w1_parses s slave)
      | inr bare ↦ rw bare (ok-OnlyOs (host.simulate s))
    ]

    w1-Total : (s : CustomSensorDef) (text : Result Str) → OnlyOs text → Total (read_w1 host s text)
    unfolding read_w1
    w1-Total s text h = except_os-total (host.simulate s) _ (bind-OnlyOs text _ h (slave-OnlyOs s))

    devices-Total :
        (s : CustomSensorDef) (ds : List (Str × Result Str))
        → AllFiles ds
        → Total (elim ds as (λ _. Result Str) [
          | [] ↦ ok (host.simulate s)
          | first ∷ more ↦ read_w1 host s (w1_target (given s.address) first (first ∷ more)).1
        ])
    devices-Total s [] h = (host.simulate s, refl)
    devices-Total s (d ∷ ds) h =
        w1-Total s (w1_target (given s.address) d (d ∷ ds)).1
          (w1_target-OnlyOs (given s.address) d ds h)

    one_wire-Total : (s : CustomSensorDef) → Total (read_one_wire host s)
    unfolding read_one_wire
    one_wire-Total s = elim (Bool-cases host.w1_available) [
      | inr off ↦ rw (off, read_one_wire) (host.simulate s, refl)
      | inl on ↦ rw (on, read_one_wire) (devices-Total s host.w1_devices calm.w1_files)
    ]

    adc-Total : (s : CustomSensorDef) → Parses s → Total (read_adc host s)
    unfolding read_adc
    adc-Total s parses = elim (Bool-cases (is_spi s.bus || is_given s.spi_channel)) [
      | inl via_spi ↦ rw via_spi (spi-Total s)
      | inr via_i2c ↦ rw via_i2c (i2c-Total s parses)
    ]

    uart-Total : (s : CustomSensorDef) → Total (read_uart host s)
    unfolding read_uart
    uart-Total s = elim (Bool-cases host.serial_exists) [
      | inr off ↦ rw off (host.simulate s, refl)
      | inl on ↦ rw on (
          except_os-total (host.simulate s) _
            (bind-OnlyOs host.serial_reply _ calm.replies (λ reply. ok-OnlyOs _)))
    ]

    pub backend-Total : (b : SensorBus) (s : CustomSensorDef) → Parses s → Total (backend host b s)
    unfolding backend
    backend-Total i2c s parses = i2c-Total s parses
    backend-Total gpio s parses = gpio-Total s
    backend-Total spi s parses = spi-Total s
    backend-Total one_wire s parses = one_wire-Total s
    backend-Total adc s parses = adc-Total s parses
    backend-Total uart s parses = uart-Total s
