-- ===== src/Prelude/Raising.antt =====
-- Python exceptions as values: a function that may raise returns a `Result`. The constructors are
-- the built-in exception classes that the backend raises, and two of the package cryptography, which
-- are subclasses of Exception alone.
use Prim.Native.Nat.{ℕ}
use mathlib.Core.Path.{◌≡◌, refl}
use mathlib.Core.Logic.{◌⊎◌, inl, inr}

pub data Exc : Type 0 where
  value_error key_error type_error runtime_error os_error import_error index_error attribute_error :
      Exc
  invalid_tag invalid_signature : Exc
  -- `HTTPException(status_code=n)`
  http : ℕ → Exc

pub data Result {ℓ} (A : Type ℓ) : Type ℓ where
  ok : A → Result A
  raise : Exc → Result A

infixl 5 ◌>>=◌
abbrev pub ◌>>=◌ {ℓ κ} : {A : Type ℓ} {B : Type κ} → Result A → (A → Result B) → Result B
ok a >>= f = f a
raise e >>= f = raise e

-- `except ValueError`, answered by 400
abbrev pub bad_value {ℓ} : {A : Type ℓ} → Result A → Result A
bad_value (ok a) = ok a
bad_value (raise value_error) = raise (http 400)
bad_value (raise e) = raise e

pub Result-cases {ℓ} :
    {A : Type ℓ} (r : Result A) → ((e : Exc) × (r ≡ raise e)) ⊎ ((a : A) × (r ≡ ok a))
Result-cases (raise e) = inl (e, refl)
Result-cases (ok a) = inr (a, refl)

-- A chain that ends well has both its steps end well.
pub bind-ok {ℓ κ} :
    {A : Type ℓ} {B : Type κ} (r : Result A) (f : A → Result B) {b : B}
    → (r >>= f) ≡ ok b
    → (a : A) × (r ≡ ok a) × (f a ≡ ok b)
bind-ok (ok a) f h = (a, refl, h)
bind-ok (raise e) f h = absurd (cc)

pub ok-injective {ℓ} : {A : Type ℓ} {a b : A} → Path (Result A) (ok a) (ok b) → a ≡ b
ok-injective h = cc

pub raise-injective {ℓ} : {A : Type ℓ} {e f : Exc} → Path (Result A) (raise e) (raise f) → e ≡ f
raise-injective h = cc
