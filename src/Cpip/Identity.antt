-- ===== src/Cpip/Identity.antt =====
-- `ECP256`, `SecureHash` and `NodeIdentity` of backend/cpip_provider.py: keys from seeds, signatures
-- and the challenge of a node. The curve of the package cryptography is the record `Curve`.
use minima_pi_net_os.Prelude.{
  str_eq, ℕ, ◌+◌, ◌*◌, ◌/◌, ◌%◌, Str, codes, Bool, true, false, [], ◌∷◌, ◌++◌, take, ltb,
  value_error, runtime_error, Result, ok, raise, ◌>>=◌, ◌==◌, if◌then◌else◌,
}
use minima_pi_net_os.Cpip.Token.{except_value}

-- `int.from_bytes(bytes, "big")`, on what has been read
unfoldable pub from_bytes : ℕ → Str → ℕ
from_bytes n [] = n
from_bytes n (b ∷ bytes) = from_bytes (n * 256 + b) bytes

abbrev pub curve_order : ℕ
curve_order = 0xFFFFFFFF00000000FFFFFFFFFFFFFFFFBCE6FAADA7179E84F3B9CAC2FC632551

pub record Curve : Type 1 where
  pub PrivateKey : Type 0
  pub PublicKey : Type 0
  -- `ec.derive_private_key(n, curve)`
  pub derive : ℕ → Result PrivateKey
  pub public_key : PrivateKey → PublicKey
  -- `public_bytes` and `from_encoded_point`
  pub encoded : PublicKey → Str
  pub from_encoded : Str → Result PublicKey
  pub sign : PrivateKey → Str → Str
  -- `verify`, which returns nothing or raises `InvalidSignature`
  pub verify : PublicKey → Str → Str → Result (Unit {0})
  pub exchange : PrivateKey → PublicKey → Result Str

-- `SecureHash.hash(data, algorithm)`
unfoldable pub secure_hash : (Str → Str) → (Str → Str) → Str → Str → Result Str
secure_hash sha256 sha3_256 bytes algorithm =
    if algorithm == codes "sha256"
    then ok (sha256 bytes)
    else (if algorithm == codes "sha3_256" then ok (sha3_256 bytes) else raise value_error)

unfoldable pub domain_hash : (Str → Str) → Str → Str → Str
domain_hash sha256 domain bytes = sha256 (domain ++ (codes "||" ++ bytes))

-- The digits of base 32, in lower case.
abbrev base32_digit : ℕ → ℕ
base32_digit v = if ltb v 26 then b'a' + v else v + 24

-- `base64.b32encode(h).decode().rstrip("=").lower()` of four bytes; `_address` is only given such.
unfoldable pub base32_of : Str → Str
base32_of (a ∷ b ∷ c ∷ d ∷ []) =
    base32_digit (a / 8)
    ∷ base32_digit (a % 8 * 4 + b / 64)
    ∷ base32_digit (b / 2 % 32)
    ∷ base32_digit (b % 2 * 16 + c / 16)
    ∷ base32_digit (c % 16 * 2 + d / 128)
    ∷ base32_digit (d / 4 % 32)
    ∷ base32_digit (d % 4 * 8)
    ∷ []
base32_of _ = []

-- A key as it is given: an object, its bytes, or a value of another type.
pub data GivenKey (P : Type 0) : Type 0 where
  object : P → GivenKey P
  encoded_bytes : Str → GivenKey P
  other : GivenKey P

pub record NodeIdentity : Type 0 where
  pub node_id : Str
  pub public_key : Str
  pub seed : Str
  pub address : Str
  pub created_at : ℕ

module _ (sha256 : Str → Str) where
  unfoldable pub pubkey_to_address : Str → Str
  pubkey_to_address public_key = codes "coffee:" ++ base32_of (take 4 (sha256 public_key))

  module _ (curve : Curve) (crypto_available : Bool) where
    unfoldable pub derive_key_from_seed : Str → Result curve.PrivateKey
    derive_key_from_seed seed =
        if crypto_available
        then curve.derive (from_bytes 0 (sha256 (codes "cpip-ecdsa-v1:" ++ seed)) % curve_order)
        else raise runtime_error

    -- The encoded public key and the private key of a seed.
    unfoldable pub generate_keypair : Str → Result (Str × curve.PrivateKey)
    generate_keypair seed =
        derive_key_from_seed seed >>= λ key. ok (curve.encoded (curve.public_key key), key)

    unfoldable pub sign : Str → Str → Result Str
    sign message seed = derive_key_from_seed seed >>= λ key. ok (curve.sign key message)

    abbrev verified : Str → Str → Result curve.PublicKey → Result Bool
    verified message signature key =
        except_value false (key >>= λ k. curve.verify k signature message >>= λ _. ok true)

    abbrev verify_given : Str → Str → GivenKey curve.PublicKey → Result Bool
    verify_given message signature (object key) = verified message signature (ok key)
    verify_given message signature (encoded_bytes bytes) =
        verified message signature (curve.from_encoded bytes)
    verify_given message signature other = ok false

    unfoldable pub verify : Str → Str → GivenKey curve.PublicKey → Result Bool
    verify message signature public_key =
        let answer = verify_given message signature public_key in
        if crypto_available then answer else raise runtime_error

    unfoldable pub key_exchange : Str → Str → Result Str
    key_exchange our_seed their_public_key = derive_key_from_seed our_seed >>= λ key.
        curve.from_encoded their_public_key >>= λ theirs.
        curve.exchange key theirs >>= λ shared. ok (sha256 shared)

    -- `seed` is what was given or drawn.
    unfoldable pub generate_node_identity : Str → Str → ℕ → Result NodeIdentity
    generate_node_identity node_id seed now = generate_keypair seed >>= λ pair. ok (record {
      node_id = node_id;
      public_key = pair.0;
      seed = seed;
      address = pubkey_to_address pair.0;
      created_at = now;
    })

    unfoldable pub respond_to_challenge : NodeIdentity → Str → Result Str
    respond_to_challenge identity challenge = sign challenge identity.seed

    unfoldable pub verify_challenge : Str → Str → Str → Result Bool
    verify_challenge challenge response public_key =
        verify challenge response (encoded_bytes public_key)

    unfoldable pub authenticate_node : NodeIdentity → Str → Str → Result Bool
    authenticate_node identity challenge response =
        verify_challenge challenge response identity.public_key
