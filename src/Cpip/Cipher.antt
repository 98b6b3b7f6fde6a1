-- ===== src/Cpip/Cipher.antt =====
-- `CoffeeCipher` of backend/cpip_provider.py: the derivation of keys, encryption and decryption. The
-- hashes are functions on bytes, and AES-256-GCM of the package cryptography is the record `Aead`.
use minima_pi_net_os.Prelude.{
  ℕ, zero, suc, ◌+◌, ◌/◌, ◌%◌, Str, codes, Bool, Option, none, some, [], ◌∷◌, ◌++◌, length, take,
  drop, ltb, value_error, runtime_error, Result, ok, raise, ◌>>=◌, if◌then◌else◌,
}
use minima_pi_net_os.Cpip.Token.{except_value}

pub record Aead : Type 0 where
  -- `AESGCM(key).encrypt(nonce, text, None)` and `decrypt`, which raises `InvalidTag`
  pub encrypt : Str → Str → Str → Str
  pub decrypt : Str → Str → Str → Result Str

-- The rounds from `i` on: `bytes([i])` takes a number below 256.
unfoldable pub expand_rounds : (Str → Str → Str) → Str → Str → ℕ → ℕ → Str → Str → Result Str
expand_rounds hmac prk info zero i t okm = ok okm
expand_rounds hmac prk info (suc rounds) i t okm =
    let t' = hmac prk (t ++ (info ++ i ∷ [])) in
    let rest = expand_rounds hmac prk info rounds (i + 1) t' (okm ++ t') in
    if ltb 255 i then raise value_error else rest

module _ (hmac : Str → Str → Str) where
  abbrev pub hkdf_extract : Str → Str → Str
  hkdf_extract salt ikm = hmac salt ikm

  unfoldable pub hkdf_expand : Str → Str → ℕ → Result Str
  hkdf_expand prk info length =
      expand_rounds hmac prk info ((length + 31) / 32) 1 [] [] >>= λ okm. ok (take length okm)

  unfoldable pub hkdf : Str → Str → Str → ℕ → Result Str
  hkdf ikm salt info length = hkdf_expand (hkdf_extract salt ikm) info length

  module _ (sha256 : Str → Str) where
    unfoldable pub key_from_recipe : Str → Str → Result Str
    key_from_recipe base_key recipe =
        hkdf base_key (sha256 (0xC0 ∷ 0xFF ∷ 0xEE ∷ recipe)) (codes "cpip-cipher-v5:" ++ recipe) 32

    module _ (aead : Aead) (crypto_available : Bool) (covert_key : Str) where
      abbrev pub key_or : Option Str → Str
      key_or none = covert_key
      key_or (some key) = key

      -- `nonce` is what `secrets.token_bytes(12)` returns.
      unfoldable pub encrypt : Str → Str → Option Str → Str → Result Str
      encrypt nonce plaintext base_key recipe =
          if crypto_available
          then (key_from_recipe (key_or base_key) recipe >>= λ key.
              ok (nonce ++ aead.encrypt key nonce plaintext))
          else raise runtime_error

      unfoldable pub decrypt : Str → Option Str → Str → Result Str
      decrypt ciphertext base_key recipe =
          if crypto_available
          then (if ltb (length ciphertext) 28
              then ok []
              else (key_from_recipe (key_or base_key) recipe >>= λ key.
                  except_value [] (aead.decrypt key (take 12 ciphertext) (drop 12 ciphertext))))
          else raise runtime_error

-- `h.hex()`
abbrev hex_digit : ℕ → ℕ
hex_digit d = if ltb d 10 then b'0' + d else d + 87

unfoldable pub hex : Str → Str
hex [] = []
hex (b ∷ bytes) = hex_digit (b / 16) ∷ hex_digit (b % 16) ∷ hex bytes

abbrev hash_rounds : (Str → Str) → Str → ℕ → Str → Str
hash_rounds sha256 text zero h = h
hash_rounds sha256 text (suc n) h =
    hash_rounds sha256 text n (sha256 (codes "cpip-hash-v5:" ++ (h ++ text)))

unfoldable pub hash : (Str → Str) → Str → Str
unfolding hex
hash sha256 text =
    take 16 (hex (hash_rounds sha256 text 4 (sha256 (codes "cpip-hash-v5:" ++ text))))
