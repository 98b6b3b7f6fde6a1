-- ===== src/Cpip/Token.antt =====
-- `RpcToken` of backend/cpip_provider.py: tokens with an end, signed by HMAC. Texts are their bytes in
-- UTF-8. `hmac key message` is the hexadecimal digest, and `second` the ticks of a second.
use minima_pi_net_os.Prelude.{
  str_eq, nat_eq, ℕ, zero, suc, ◌+◌, ◌*◌, ◌/◌, Str, Bool, true, false, Option, none, some, List, [],
  ◌∷◌, ◌++◌, ltb, value_error, type_error, Result, ok, raise, ◌>>=◌, ◌==◌, if◌then◌else◌,
}
use minima_pi_net_os.Prelude.Int.{ℤ, pos, negsuc}
use minima_pi_net_os.Prelude.Text.{split}
use minima_pi_net_os.Json.Number.{decimal}
use minima_pi_net_os.Encoding.Base64
use minima_pi_net_os.Encoding.Utf8
use minima_pi_net_os.Encoding.IntText.{int_of}

pub record TokenSettings : Type 0 where
  pub covert_key : Str
  pub token_ttl : ℕ
  pub second : ℕ

-- `except (ValueError, TypeError): return fallback`
abbrev pub except_value {ℓ} : {A : Type ℓ} → A → Result A → Result A
except_value fallback (ok a) = ok a
except_value fallback (raise value_error) = ok fallback
except_value fallback (raise type_error) = ok fallback
except_value fallback (raise e) = raise e

abbrev pub payload_of : Str → Str → Str
payload_of node_id expiry = node_id ++ b':' ∷ expiry

-- `ttl or CPIP_TOKEN_TTL`
abbrev pub ttl_or : Option ℕ → ℕ → ℕ
ttl_or none default = default
ttl_or (some zero) default = default
ttl_or (some (suc n)) default = suc n

module _ (c : TokenSettings) where
  unfoldable pub init_secret : Option Str → Str
  init_secret none = c.covert_key
  init_secret (some secret) = secret

  -- `if not cls._secret: cls.init_secret()`
  unfoldable pub secret_or_init : Str → Str
  unfolding init_secret
  secret_or_init [] = init_secret none
  secret_or_init (b ∷ secret) = b ∷ secret

  abbrev pub expiry_of : ℕ → Option ℕ → ℕ
  expiry_of now ttl = now / c.second + ttl_or ttl c.token_ttl

  -- `time.time() > expiry`
  abbrev pub is_late : ℕ → ℤ → Bool
  is_late now (pos expiry) = ltb (expiry * c.second) now
  is_late now (negsuc n) = true

  module _ (hmac : Str → Str → Str) where
    abbrev pub token_raw : Str → Str → Str → Str
    token_raw secret node_id expiry =
        payload_of node_id expiry ++ b':' ∷ hmac secret (payload_of node_id expiry)

    -- The token, and the secret as the class then has it.
    unfoldable pub generate : Str → ℕ → Str → Option ℕ → Str × Str
    generate secret now node_id ttl =
        let kept = secret_or_init secret in
        (Base64.encode (token_raw kept node_id (decimal (expiry_of now ttl))), kept)

    abbrev pub in_time : Str → ℕ → Str → Str → Str → Option ℤ → Result Bool
    in_time secret now token_node_id expiry_str sig none = raise value_error
    in_time secret now token_node_id expiry_str sig (some expiry) =
        if is_late now expiry
        then ok false
        else ok (sig == hmac secret (payload_of token_node_id expiry_str))

    unfoldable pub check_parts : Str → ℕ → Str → List Str → Result Bool
    check_parts secret now node_id (token_node_id ∷ expiry_str ∷ sig ∷ []) =
        if token_node_id == node_id
        then in_time secret now token_node_id expiry_str sig (int_of expiry_str)
        else ok false
    check_parts secret now node_id _ = ok false

    unfoldable pub verify : Str → ℕ → Str → Str → Result Bool × Str
    verify secret now token node_id =
        let kept = secret_or_init secret in
        (
          except_value false (
              Base64.decode token >>= λ bytes.
              Utf8.decode bytes >>= λ decoded. check_parts kept now node_id (split b':' decoded)),
          kept,
        )

abbrev first_part : List Str → Option Str
first_part [] = none
first_part (p ∷ ps) = some p

-- A `UnicodeDecodeError` is a `ValueError`.
unfoldable pub extract_node_id : Str → Result (Option Str)
extract_node_id token = except_value none (
    Base64.decode token >>= λ bytes.
    Utf8.decode bytes >>= λ decoded. ok (first_part (split b':' decoded)))
