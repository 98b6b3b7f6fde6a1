-- ===== src/Rmp/Flatten.antt =====
-- `_flatten_state`, `_leaf_hash` and `_hash_pair` of backend/rmp.py.
use minima_pi_net_os.Prelude.{ℕ, ◌+◌, Str, codes, List, [], ◌∷◌, ◌++◌}
use minima_pi_net_os.Json.{
  Value, Items, Fields, null, bool, int, float, str, arr, obj, nil, cons, end, field,
  canonical_json,
}
use minima_pi_net_os.Json.Number.{decimal}
use minima_pi_net_os.Json.Sort.{Keyed, sort_keys}

-- A path and the value at it.
abbrev pub Leaf : Type 0
Leaf = Str × Value

-- `f"{prefix}.{key}" if prefix else str(key)`
abbrev pub key_path : Str → Str → Str
key_path [] key = key
key_path (c ∷ prefix) key = (c ∷ prefix) ++ (codes "." ++ key)

-- `f"{prefix}[{index}]"`
abbrev pub index_path : Str → ℕ → Str
index_path prefix index = prefix ++ (codes "[" ++ (decimal index ++ codes "]"))

unfoldable pub join_leaves : List (Keyed (List Leaf)) → List Leaf
join_leaves [] = []
join_leaves ((key, leaves) ∷ rest) = leaves ++ join_leaves rest

-- The leaves of every member are found before the members are sorted: they depend on nothing but
-- the member and the prefix.
unfoldable mutual
  pub flatten_state : Value → Str → List Leaf
  flatten_state (obj fs) prefix = join_leaves (sort_keys (member_leaves fs prefix))
  flatten_state (arr xs) prefix = item_leaves xs prefix 0
  flatten_state null prefix = (prefix, null) ∷ []
  flatten_state (bool b) prefix = (prefix, bool b) ∷ []
  flatten_state (int i) prefix = (prefix, int i) ∷ []
  flatten_state (float text) prefix = (prefix, float text) ∷ []
  flatten_state (str s) prefix = (prefix, str s) ∷ []

  pub item_leaves : Items → Str → ℕ → List Leaf
  item_leaves nil prefix index = []
  item_leaves (cons x xs) prefix index =
      flatten_state x (index_path prefix index) ++ item_leaves xs prefix (index + 1)

  pub member_leaves : Fields → Str → List (Keyed (List Leaf))
  member_leaves end prefix = []
  member_leaves (field key v fs) prefix =
      (key, flatten_state v (key_path prefix key)) ∷ member_leaves fs prefix

-- The text of which `_leaf_hash` takes the hash.
abbrev pub leaf_text : Str → Value → Str
leaf_text path value = codes "leaf:" ++ (path ++ (codes ":" ++ canonical_json value))

-- The text of which `_hash_pair` takes the hash.
abbrev pub node_text : Str → Str → Str
node_text left right = codes "node:" ++ (left ++ (codes ":" ++ right))

module _ (sha256 : Str → Str) where
  abbrev pub leaf_hash : Str → Value → Str
  leaf_hash path value = sha256 (leaf_text path value)

  abbrev pub hash_pair : Str → Str → Str
  hash_pair left right = sha256 (node_text left right)

  abbrev pub leaf_hashes : List Leaf → List Str
  leaf_hashes [] = []
  leaf_hashes ((path, value) ∷ rest) = leaf_hash path value ∷ leaf_hashes rest
