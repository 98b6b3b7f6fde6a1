-- ===== src/Tpm.antt =====
-- backend/tpm_keystore.py. Here: sealing and unsealing in software, on hosts without a TPM. `digest` is
-- the digest of SHA-256 in bytes; the machine's identifier, the random bytes and the files'
-- permissions are arguments. Hardware has the hosts with a TPM, and its PCR values.
pub mod Sealed
pub mod Hardware
pub mod Lost
use minima_pi_net_os.Prelude.{
  str_eq, nat_eq, ℕ, zero, suc, ◌+◌, ◌*◌, ◌/◌, ◌%◌, Str, codes, Bool, true, false, ◌&&◌, Option,
  none, some, List, [], ◌∷◌, length, ◌==◌, leb, any, not, if◌then◌else◌,
}
use minima_pi_net_os.Prelude.Text.{lstrip, rstrip}
use minima_pi_net_os.Dict.{Dict, put}

-- `a ^ b` of the lowest bits, as many as the fuel.
unfoldable pub xor_bits : ℕ → ℕ → ℕ → ℕ
xor_bits zero a b = 0
xor_bits (suc bits) a b = (a + b) % 2 + 2 * xor_bits bits (a / 2) (b / 2)

-- `bytes(a ^ b for a, b in zip(data, key))`
unfoldable pub xor_bytes : List ℕ → List ℕ → List ℕ
xor_bytes [] key = []
xor_bytes (a ∷ data_bytes) [] = []
xor_bytes (a ∷ data_bytes) (b ∷ key) = xor_bits 8 a b ∷ xor_bytes data_bytes key

-- The text of /etc/machine-id, where it can be read.
abbrev pub key_text : Str → Str
key_text [] = codes "pinet-fallback-key"
key_text (c ∷ s) = c ∷ s

pub record Host : Type 0 where
  pub keywrap_enabled : Bool
  pub machine_id : Option Str
  pub digest : Str → List ℕ
  -- the sealed file can be written, and read where it is there
  pub writable : Bool
  pub readable : Bool

module _ (host : Host) where
  unfoldable pub wrapping_key : Str → List ℕ
  wrapping_key machine_id = host.digest (key_text (rstrip (lstrip machine_id)))

  -- By what reading the machine's identifier gives: whether it succeeded, and the sealed file after.
  unfoldable pub seal_with : List ℕ → Option (List ℕ) → Option Str → Bool × Option (List ℕ)
  seal_with master_key file none = (false, file)
  seal_with master_key file (some machine_id) =
      if host.writable
      then (true, some (xor_bytes master_key (wrapping_key machine_id)))
      else (false, file)

  unfoldable pub seal_software : List ℕ → Option (List ℕ) → Bool × Option (List ℕ)
  seal_software master_key file = seal_with master_key file host.machine_id

  -- `seal_key`: the member `sealed` of its answer.
  unfoldable pub seal_key : List ℕ → Option (List ℕ) → Bool × Option (List ℕ)
  seal_key master_key file =
      if host.keywrap_enabled then seal_software master_key file else (false, file)

  -- The key that `_unseal_software` computes; the caller is told its length.
  unfoldable pub unseal_with : List ℕ → Option Str → Option (List ℕ)
  unseal_with sealed none = none
  unseal_with sealed (some machine_id) =
      if host.readable then some (xor_bytes sealed (wrapping_key machine_id)) else none

  unfoldable pub unseal_software : List ℕ → Option (List ℕ)
  unseal_software sealed = unseal_with sealed host.machine_id

  unfoldable pub unseal_key : Option (List ℕ) → Option (List ℕ)
  unseal_key none = none
  unseal_key (some sealed) = unseal_software sealed
