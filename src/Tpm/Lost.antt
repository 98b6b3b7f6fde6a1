-- ===== src/Tpm/Lost.antt =====
-- What becomes of a key that backend/tpm_keystore.py seals by a TPM.
use minima_pi_net_os.Prelude.{
  str_eq, str_beq, ℕ, ◌/◌, ◌≡◌, refl, sym, ap, ◌∙◌, Str, codes, Bool, true, false, Option, none,
  some, List, length, take, drop, arith, Bool-cases, inl, inr, if-both, beq_iff, ◌==◌,
}
use minima_pi_net_os.Dict.{get, get-put, get-remove}
use minima_pi_net_os.Tpm.Hardware.{
  Disk, FileStep, Tools, continued, ◌and_then◌, write_bytes, unlink, store_blob, clean_up, seal_tpm,
  write_halves, unsealed, unseal_tpm,
}

abbrev primary : Str
primary = codes "primary.ctx"

-- A step after which a file that was not there is not there
abbrev pub IsSparing : Str → FileStep → Type 0
IsSparing path step = (d : Disk) → get path d ≡ none → get path (step d).1 ≡ none

IsSparing-and_then :
    (path : Str) (first next : FileStep)
    → IsSparing path first
    → IsSparing path next
    → IsSparing path (first and_then next)
IsSparing-and_then path first next f g d h = go (first d) (f d h)
  where
    go : (r : Bool × Disk) → get path r.1 ≡ none → get path (continued next r).1 ≡ none
    go (false, e) k = k
    go (true, e) k = g e k

IsSparing-unlink : (t : Tools) (path p : Str) → IsSparing path (unlink t p)
IsSparing-unlink t path p d h =
    if-both (λ (r : Bool × Disk). get path r.1 ≡ none) (t.unlinkable p)
      (get-remove p path d ∙ ground (arith, h)) h

IsSparing-write :
    (t : Tools) (path p : Str) (bytes : List ℕ)
    → (p == path) ≡ false
    → IsSparing path (write_bytes t p bytes)
IsSparing-write t path p bytes differs d h =
    if-both (λ (r : Bool × Disk). get path r.1 ≡ none) (t.writable p)
      (get-put p path bytes d ∙ ground (arith, h, differs)) h

continued-ok :
    (next : FileStep) (r : Bool × Disk)
    → (continued next r).0 ≡ true
    → (r.0 ≡ true) × (continued next r ≡ next r.1)
continued-ok next (false, d) h = absurd (cc)
continued-ok next (true, d) h = (refl, refl)

unlink-gone :
    (t : Tools) (path : Str) (d : Disk)
    → (unlink t path d).0 ≡ true
    → get path (unlink t path d).1 ≡ none
unlink-gone t path d h = elim (Bool-cases (t.unlinkable path)) [
  | inl may ↦ rw may (get-remove path path d ∙ ground (arith, (beq_iff path path).1 refl))
  | inr may_not ↦ let e : false ≡ true = rw may_not at h in absurd (cc)
]

-- What ends well has ended with its last step, in the files that the first has left.
and_then-ok :
    (first next : FileStep) (d : Disk)
    → ((first and_then next) d).0 ≡ true
    → (e : Disk) × ((next e).0 ≡ true) × ((first and_then next) d ≡ next e)
and_then-ok first next d h =
    let (done, same) = continued-ok next (first d) h in
    ((first d).1, sym (ap (λ r. r.0) same) ∙ h, same)

clean_up-gone :
    (t : Tools) (d : Disk) → (clean_up t d).0 ≡ true → get primary (clean_up t d).1 ≡ none
clean_up-gone t d h =
    let pub_path = codes "sealed.pub" in
    let priv_path = codes "sealed.priv" in
    let key_path = codes "/tmp/cpip-key.dat" in
    let last = unlink t priv_path and_then unlink t key_path in
    let (first, same) = continued-ok (unlink t pub_path and_then last) (unlink t primary d) h in
    let spared =
      IsSparing-and_then primary (unlink t pub_path) last (IsSparing-unlink t primary pub_path) (
        IsSparing-and_then primary (unlink t priv_path) (unlink t key_path)
          (IsSparing-unlink t primary priv_path) (IsSparing-unlink t primary key_path)) in
    rw same (spared (unlink t primary d).1 (unlink-gone t primary d first))

seal_tpm-gone :
    (t : Tools) (sealed_path : Str) (master_key : List ℕ) (d : Disk)
    → (seal_tpm t sealed_path master_key d).0 ≡ true
    → get primary (seal_tpm t sealed_path master_key d).1 ≡ none
unfolding seal_tpm
seal_tpm-gone t sealed_path master_key d h =
    let (d1, h1, e1) = and_then-ok t.createprimary _ d h in
    let (d2, h2, e2) = and_then-ok (write_bytes t (codes "/tmp/cpip-key.dat") master_key) _ d1 h1 in
    let (d3, h3, e3) = and_then-ok t.create _ d2 h2 in
    let (d4, h4, e4) = and_then-ok (store_blob t sealed_path) (clean_up t) d3 h3 in
    ap (λ r. get primary r.1) (e1 ∙ e2 ∙ e3 ∙ e4) ∙ clean_up-gone t d4 h4

IsSparing-write_halves :
    (t : Tools) (sealed : Option (List ℕ)) → IsSparing primary (write_halves t sealed)
unfolding str_beq
IsSparing-write_halves t none = λ d h. h
IsSparing-write_halves t (some sealed) =
    let half = length sealed / 2 in
    IsSparing-and_then primary (write_bytes t (codes "sealed.pub") (take half sealed))
      (write_bytes t (codes "sealed.priv") (drop half sealed))
      (IsSparing-write t primary (codes "sealed.pub") (take half sealed) refl)
      (IsSparing-write t primary (codes "sealed.priv") (drop half sealed) refl)

-- A key that was sealed by the TPM is not unsealed, by a `tpm2_load` that fails where the file of its
-- parent's context is not there: the sealing has deleted that file, and nothing makes it again.
pub unseal_tpm-seal_tpm :
    (t : Tools) (sealed_path : Str) (master_key : List ℕ) (d : Disk)
    → ((e : Disk) → get (codes "primary.ctx") e ≡ none → (t.load e).0 ≡ false)
    → (seal_tpm t sealed_path master_key d).0 ≡ true
    → (unseal_tpm t sealed_path (seal_tpm t sealed_path master_key d).1).0 ≡ none
unfolding unseal_tpm
unseal_tpm-seal_tpm t sealed_path master_key d needs done =
    let after = (seal_tpm t sealed_path master_key d).1 in
    let halves = write_halves t (get sealed_path after) in
    go (halves after) (
      IsSparing-write_halves t (get sealed_path after) after
        (seal_tpm-gone t sealed_path master_key d done))
  where
    go :
        (r : Bool × Disk)
        → get primary r.1 ≡ none
        → (unsealed t (continued (t.load and_then t.unseal) r)).0 ≡ none
    go (false, e) h = refl
    go (true, e) h = stop (t.load e) (needs e h)
      where
        stop : (l : Bool × Disk) → l.0 ≡ false → (unsealed t (continued t.unseal l)).0 ≡ none
        stop (false, f) k = refl
        stop (true, f) k = absurd (cc)
