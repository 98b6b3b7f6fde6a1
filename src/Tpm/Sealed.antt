-- ===== src/Tpm/Sealed.antt =====
-- The round trip of backend/tpm_keystore.py: a key that was sealed is unsealed.
use minima_pi_net_os.Prelude.{
  ℕ, zero, suc, ◌+◌, ◌*◌, ◌/◌, ◌%◌, ◌≤◌, ◌<◌, ◌≡◌, refl, ap, ap₂, ◌∙◌, Str, true, Option, some,
  List, [], ◌∷◌, length, arith, if-true,
}
use minima_pi_net_os.Tpm.{
  Host, xor_bits, xor_bytes, wrapping_key, seal_with, seal_software, seal_key, unseal_with,
  unseal_software, unseal_key,
}

-- The numbers of so many bits are below it.
abbrev bound : ℕ → ℕ
bound zero = 1
bound (suc bits) = 2 * bound bits

xor_bits-twice : (bits a b : ℕ) → a < bound bits → xor_bits bits (xor_bits bits a b) b ≡ a
unfolding xor_bits
xor_bits-twice zero a b h = omega arith
xor_bits-twice (suc bits) a b h =
    let r = xor_bits bits (a / 2) (b / 2) in
    let half : ((a + b) % 2 + 2 * r) / 2 ≡ r = omega arith in
    rw half (omega (arith, xor_bits-twice bits (a / 2) (b / 2) (omega arith)))

-- Every member is a byte.
abbrev pub AllBytes : List ℕ → Type 0
AllBytes [] = Unit
AllBytes (b ∷ bs) = (b < 256) × AllBytes bs

xor_bytes-twice :
    (bytes key : List ℕ)
    → AllBytes bytes
    → length bytes ≤ length key
    → xor_bytes (xor_bytes bytes key) key ≡ bytes
unfolding xor_bytes
xor_bytes-twice [] key h long = refl
xor_bytes-twice (a ∷ bytes) [] h long = absurd (omega arith)
xor_bytes-twice (a ∷ bytes) (b ∷ key) h long =
    ap₂ (λ c cs. c ∷ cs) (xor_bits-twice 8 a b h.0) (xor_bytes-twice bytes key h.1 (omega arith))

seal_software-written :
    (host : Host) (machine_id : Str) (master_key : List ℕ) (file : Option (List ℕ))
    → host.machine_id ≡ some machine_id
    → host.writable ≡ true
    → seal_software host master_key file
      ≡ (true, some (xor_bytes master_key (wrapping_key host machine_id)))
unfolding seal_software seal_with
seal_software-written host machine_id master_key file named writable =
    ap (seal_with host master_key file) named ∙ if-true host.writable _ _ writable

unseal_software-read :
    (host : Host) (machine_id : Str) (sealed : List ℕ)
    → host.machine_id ≡ some machine_id
    → host.readable ≡ true
    → unseal_software host sealed ≡ some (xor_bytes sealed (wrapping_key host machine_id))
unfolding unseal_software unseal_with
unseal_software-read host machine_id sealed named readable =
    ap (unseal_with host sealed) named ∙ if-true host.readable _ _ readable

-- A master key of bytes that is no longer than the digest is sealed where key wrapping is on, the
-- machine has an identifier and the file can be written and read, and unsealing then gives the same
-- key, whatever was in the file before.
pub unseal-seal :
    (host : Host) (machine_id : Str) (master_key : List ℕ) (file : Option (List ℕ))
    → host.keywrap_enabled ≡ true
    → host.machine_id ≡ some machine_id
    → host.writable ≡ true
    → host.readable ≡ true
    → AllBytes master_key
    → length master_key ≤ length (wrapping_key host machine_id)
    → let (sealed, after) = seal_key host master_key file in
      (sealed ≡ true) × (unseal_key host after ≡ some master_key)
unfolding seal_key unseal_key
unseal-seal host machine_id master_key file on named writable readable bytes long =
    let key = wrapping_key host machine_id in
    let sealed : seal_key host master_key file ≡ (true, some (xor_bytes master_key key)) =
      if-true host.keywrap_enabled (seal_software host master_key file) _ on
      ∙ seal_software-written host machine_id master_key file named writable in
    rw sealed (
      refl,
      unseal_software-read host machine_id (xor_bytes master_key key) named readable
          ∙ ap some (xor_bytes-twice master_key key bytes long),
    )
