-- ===== src/Tpm/Hardware.antt =====
-- backend/tpm_keystore.py on hosts with a TPM: sealing, unsealing and the PCR values. The tools of
-- tpm2-tools change the files; each ends well, or raises SubprocessError or OSError.
use minima_pi_net_os.Prelude.{
  str_eq, nat_eq, ℕ, ◌/◌, Str, codes, Bool, true, false, not, ◌&&◌, Option, none, some, List, [],
  ◌∷◌, ◌++◌, length, take, drop, any, ◌==◌, if◌then◌else◌,
}
use minima_pi_net_os.Prelude.Text.{lstrip, rstrip, split}
use minima_pi_net_os.Dict.{Dict, get, put, remove}
use minima_pi_net_os.Updater.{is_digit}

-- The files by their paths
abbrev pub Disk : Type 0
Disk = Dict Str (List ℕ)

-- Whether a call ended well, and the files after it
abbrev pub FileStep : Type 0
FileStep = Disk → Bool × Disk

pub record Tools : Type 0 where
  pub createprimary : FileStep
  pub create : FileStep
  pub load : FileStep
  -- `tpm2_unseal`; the Boolean is whether it ends with 0
  pub unseal : FileStep
  pub writable : Str → Bool
  pub unlinkable : Str → Bool
  -- what `tpm2_pcrread` prints where it ends with 0
  pub pcrread : Option Str

-- The first step that fails ends the `try`.
abbrev pub continued : FileStep → Bool × Disk → Bool × Disk
continued next (false, d) = (false, d)
continued next (true, d) = next d

infixr 4 ◌and_then◌
abbrev pub ◌and_then◌ : FileStep → FileStep → FileStep
(first and_then next) d = continued next (first d)

module _ (t : Tools) where
  abbrev pub write_bytes : Str → List ℕ → FileStep
  write_bytes path bytes d = if t.writable path then (true, put path bytes d) else (false, d)

  -- `unlink(missing_ok=True)`
  abbrev pub unlink : Str → FileStep
  unlink path d = if t.unlinkable path then (true, remove path d) else (false, d)

  -- `Path("sealed.pub").read_bytes() + Path("sealed.priv").read_bytes()`
  abbrev pub blob_of : Option (List ℕ) → Option (List ℕ) → Option (List ℕ)
  blob_of (some public_part) (some private_part) = some (public_part ++ private_part)
  blob_of public_part private_part = none

  abbrev pub stored : Str → Option (List ℕ) → FileStep
  stored sealed_path none d = (false, d)
  stored sealed_path (some blob) d = write_bytes sealed_path blob d

  abbrev pub store_blob : Str → FileStep
  store_blob sealed_path d =
      stored sealed_path (blob_of (get (codes "sealed.pub") d) (get (codes "sealed.priv") d)) d

  abbrev pub clean_up : FileStep
  clean_up =
      unlink (codes "primary.ctx")
      and_then unlink (codes "sealed.pub")
      and_then unlink (codes "sealed.priv")
      and_then unlink (codes "/tmp/cpip-key.dat")

  unfoldable pub seal_tpm : Str → List ℕ → FileStep
  seal_tpm sealed_path master_key =
      t.createprimary
      and_then write_bytes (codes "/tmp/cpip-key.dat") master_key
      and_then t.create
      and_then store_blob sealed_path
      and_then clean_up

  -- The halves of the sealed file, whatever the lengths of its parts were
  abbrev pub write_halves : Option (List ℕ) → FileStep
  write_halves none d = (false, d)
  write_halves (some sealed) d =
      let half = length sealed / 2 in
      (write_bytes (codes "sealed.pub") (take half sealed)
          and_then write_bytes (codes "sealed.priv") (drop half sealed))
        d

  abbrev pub answered : List ℕ → Bool × Disk → Option (List ℕ) × Disk
  answered key (false, d) = (none, d)
  answered key (true, d) = (some key, d)

  abbrev pub read_key : Option (List ℕ) → Disk → Option (List ℕ) × Disk
  read_key none d = (none, d)
  read_key (some key) d =
      answered key
        ((unlink (codes "sealed.ctx") and_then unlink (codes "/tmp/cpip-unsealed.dat")) d)

  abbrev pub unsealed : Bool × Disk → Option (List ℕ) × Disk
  unsealed (false, d) = (none, d)
  unsealed (true, d) = read_key (get (codes "/tmp/cpip-unsealed.dat") d) d

  -- The key that is unsealed, of which the caller is told the length
  unfoldable pub unseal_tpm : Str → Disk → Option (List ℕ) × Disk
  unseal_tpm sealed_path d =
      unsealed ((write_halves (get sealed_path d) and_then t.load and_then t.unseal) d)

-- `line.split(":", 1)`: `acc` is what stands before.
unfoldable pub cut : Str → Str → Option (Str × Str)
cut acc [] = none
cut acc (c ∷ s) = let rest = cut (acc ++ c ∷ []) s in if c == b':' then some (acc, s) else rest

abbrev pub strip : Str → Str
strip s = rstrip (lstrip s)

abbrev pub isdigit : Str → Bool
isdigit s = not (s == []) && not (any (λ c. not (is_digit c)) s)

abbrev pub with_pcr : Option (Str × Str) → Dict Str Str → Dict Str Str
with_pcr none pcrs = pcrs
with_pcr (some (idx, value)) pcrs =
    if isdigit (strip idx) then put (strip idx) (strip value) pcrs else pcrs

unfoldable pub pcrs_of : List Str → Dict Str Str → Dict Str Str
pcrs_of [] pcrs = pcrs
pcrs_of (line ∷ lines) pcrs = pcrs_of lines (with_pcr (cut [] (strip line)) pcrs)

-- The lines of the output end in a line feed.
unfoldable pub get_pcr_values : Tools → Dict Str Str
get_pcr_values t = elim t.pcrread [ none ↦ [] | some out ↦ pcrs_of (split b'\n' out) [] ]
