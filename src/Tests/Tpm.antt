-- ===== src/Tests/Tpm.antt =====
-- backend/tpm_keystore.py with a toy digest.
use minima_pi_net_os.Prelude.Text.{lstrip, split_from, rstrip}
use minima_pi_net_os.Prelude.{
  any, str_eq, str_beq, ℕ, Bool, false, Option, List, ◌≤◌, ◌≡◌, refl, codes, true, none, some, [],
  ◌∷◌, length, arith,
}
use minima_pi_net_os.Tpm.{Host, wrapping_key, seal_key, unseal_key}
use minima_pi_net_os.Dict.{get, put}
use minima_pi_net_os.Tpm.Hardware.{cut, pcrs_of, Disk, Tools, seal_tpm, unseal_tpm, get_pcr_values}
use minima_pi_net_os.Tpm.Lost.{unseal_tpm-seal_tpm}
use minima_pi_net_os.Tpm.Sealed.{unseal-seal}

abbrev host : Host
host = record {
  keywrap_enabled = true;
  machine_id = some (codes "m1");
  digest = λ s. 7 ∷ 200 ∷ 13 ∷ [];
  writable = true;
  readable = true;
}

key_long : 2 ≤ length (wrapping_key host (codes "m1"))
unfolding wrapping_key
key_long = omega arith

unseal-seal_example :
    let (sealed, after) = seal_key host (90 ∷ 255 ∷ []) none in
    (sealed ≡ true) × (unseal_key host after ≡ some (90 ∷ 255 ∷ []))
unseal-seal_example =
    unseal-seal host (codes "m1") (90 ∷ 255 ∷ []) none refl refl refl refl
      (omega arith, (omega arith, tt)) key_long

-- The tools write their results as the manual pages say; loading wants the parent's context.
abbrev loads : Option (List ℕ) → Bool
loads none = false
loads (some context) = true

abbrev tools : Tools
tools = record {
  createprimary = λ d. (true, put (codes "primary.ctx") (1 ∷ []) d);
  create = λ d. (true, put (codes "sealed.pub") (2 ∷ []) (put (codes "sealed.priv") (3 ∷ []) d));
  load = λ d. (loads (get (codes "primary.ctx") d), put (codes "sealed.ctx") (4 ∷ []) d);
  unseal = λ d. (true, put (codes "/tmp/cpip-unsealed.dat") (9 ∷ []) d);
  writable = λ path. true;
  unlinkable = λ path. true;
  pcrread = some (codes "  sha256:\n    0 : 0xAB\n    23: 0xCD\n");
}

pcr_values : get_pcr_values tools ≡ (codes "0", codes "0xAB") ∷ (codes "23", codes "0xCD") ∷ []
unfolding get_pcr_values pcrs_of split_from cut rstrip lstrip str_beq any put
pcr_values = refl

needs_context : (e : Disk) → get (codes "primary.ctx") e ≡ none → (tools.load e).0 ≡ false
needs_context e h = rw (h, loads) refl

unseal_tpm-seal_tpm_example :
    (unseal_tpm tools (codes "key.sealed") (seal_tpm tools (codes "key.sealed") (9 ∷ []) []).1).0
    ≡ none
unfolding seal_tpm get put str_beq
unseal_tpm-seal_tpm_example =
    unseal_tpm-seal_tpm tools (codes "key.sealed") (9 ∷ []) [] needs_context refl
