-- ===== src/Rmp/Ambiguous.antt =====
-- States that `_flatten_state` of backend/rmp.py does not tell apart.
use minima_pi_net_os.Prelude.{ℕ, ◌≡◌, ap, sym, Str, codes, [], ◌∷◌, ◌++◌, append-nil}
use minima_pi_net_os.Json.{Value, obj, end, field}
use minima_pi_net_os.Json.Sort.{sort_keys}
use minima_pi_net_os.Rmp.Flatten.{flatten_state, join_leaves, leaf_hashes}
use minima_pi_net_os.Rmp.Levels.{build_levels, root_of}

-- `{key: value}`
abbrev pub one_member : Str → Value → Value
one_member key value = obj (field key value end)

abbrev pub state_root : (Str → Str) → Value → Str
state_root sha256 state =
    root_of (build_levels sha256 (leaf_hashes sha256 (flatten_state state [])))

dotted_key-leaves :
    (c : ℕ) (outer inner : Str) (value : Value)
    → flatten_state (one_member ((c ∷ outer) ++ (codes "." ++ inner)) value) []
      ≡ flatten_state (one_member (c ∷ outer) (one_member inner value)) []
unfolding flatten_state join_leaves sort_keys
dotted_key-leaves c outer inner value = sym (append-nil _)

-- A member under a key with a dot has the root of a nested member, whatever the hash function: the
-- root does not determine the state.
pub dotted_key-root :
    (sha256 : Str → Str) (c : ℕ) (outer inner : Str) (value : Value)
    → state_root sha256 (one_member ((c ∷ outer) ++ (codes "." ++ inner)) value)
      ≡ state_root sha256 (one_member (c ∷ outer) (one_member inner value))
dotted_key-root sha256 c outer inner value =
    ap (λ leaves. root_of (build_levels sha256 (leaf_hashes sha256 leaves)))
      (dotted_key-leaves c outer inner value)
