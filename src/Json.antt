-- ===== src/Json.antt =====
-- The JSON values that the backend's handlers receive and return, and the text that
-- `json.dumps(value, sort_keys=True, separators=(",", ":"), ensure_ascii=False)` gives for them
-- (`canonical_json` of backend/rmp.py and backend/provenance_store.py).
-- Texts are lists of code points. A float is kept as the text that `json.dumps` prints for it.
pub mod Sort
pub mod Number
pub mod Digits
use minima_pi_net_os.Prelude.{
  zero, not, str_eq, nat_eq, ℕ, ◌+◌, ◌-◌, ◌/◌, ◌%◌, Str, codes, Bool, true, false, ◌||◌, Option,
  none, some, List, [], ◌∷◌, ◌++◌, ltb, ◌==◌, if◌then◌else◌,
}
use minima_pi_net_os.Prelude.Int.{ℤ, pos, negsuc}
use minima_pi_net_os.Json.Sort.{Keyed, sort_keys}
use minima_pi_net_os.Json.Number.{decimal}

mutual
  pub data Value : Type 0 where
    null : Value
    bool : Bool → Value
    int : ℤ → Value
    float : Str → Value
    str : Str → Value
    obj : Fields → Value
    arr : Items → Value

  pub data Items : Type 0 where
    cons : Value → Items → Items
    nil : Items

  pub data Fields : Type 0 where
    field : Str → Value → Fields → Fields
    end : Fields

-- `d.get(key)`, `key in d`
unfoldable pub get : Str → Fields → Option Value
get key end = none
get key (field k v fs) = if k == key then some v else get key fs

-- `d.get(key, default)`
abbrev pub get_or : Option Value → Value → Value
get_or none d = d
get_or (some v) d = v

abbrev zero_of : ℤ → Bool
zero_of (pos zero) = true
zero_of _ = false

-- `not v`; a float is false where its text is that of zero
unfoldable pub is_falsy : Value → Bool
is_falsy null = true
is_falsy (bool b) = not b
is_falsy (int i) = zero_of i
is_falsy (float t) = t == codes "0.0" || t == codes "-0.0"
is_falsy (str []) = true
is_falsy (str (c ∷ s)) = false
is_falsy (arr nil) = true
is_falsy (arr (cons x xs)) = false
is_falsy (obj end) = true
is_falsy (obj (field k v fs)) = false

abbrev pub items : List Value → Items
items [] = nil
items (v ∷ vs) = cons v (items vs)

-- `ESCAPE_DCT` of the standard library's encoder, without `ensure_ascii`
hex_digit : ℕ → ℕ
hex_digit d = if ltb d 10 then b'0' + d else b'a' + (d - 10)

unfoldable pub escape : ℕ → Str
unfolding hex_digit
escape c =
    if c == 0x22
    then codes "\\\""
    else if c == 0x5c
    then codes "\\\\"
    else if c == 0x0a
    then codes "\\n"
    else if c == 0x0d
    then codes "\\r"
    else if c == 0x09
    then codes "\\t"
    else if c == 0x0c
    then codes "\\f"
    else if c == 0x08
    then codes "\\b"
    else if ltb c 0x20
    then codes "\\u00" ++ hex_digit (c / 16) ∷ hex_digit (c % 16) ∷ []
    else c ∷ []

unfoldable pub escape_all : Str → Str
unfolding escape
escape_all [] = []
escape_all (c ∷ s) = escape c ++ escape_all s

abbrev pub quote : Str → Str
quote s = codes "\"" ++ (escape_all s ++ codes "\"")

unfoldable pub int_text : ℤ → Str
unfolding decimal
int_text (pos n) = decimal n
int_text (negsuc n) = codes "-" ++ decimal (n + 1)

-- `",".join(texts)`
unfoldable pub join : List Str → Str
join [] = []
join (t ∷ []) = t
join (t ∷ u ∷ ts) = t ++ (codes "," ++ join (u ∷ ts))

-- The members of an object, printed, in the order of their keys.
unfoldable pub join_members : List (Keyed Str) → List Str
join_members [] = []
join_members ((key, text) ∷ ms) = (quote key ++ (codes ":" ++ text)) ∷ join_members ms

-- Every member is printed before the members are sorted: the text of a member depends on nothing
-- but the member.
unfoldable mutual
  pub canonical_json : Value → Str
  canonical_json null = codes "null"
  canonical_json (bool true) = codes "true"
  canonical_json (bool false) = codes "false"
  canonical_json (int i) = int_text i
  canonical_json (float text) = text
  canonical_json (str s) = quote s
  canonical_json (arr xs) = codes "[" ++ (join (item_texts xs) ++ codes "]")
  canonical_json (obj fs) =
      codes "{" ++ (join (join_members (sort_keys (member_texts fs))) ++ codes "}")

  pub item_texts : Items → List Str
  item_texts nil = []
  item_texts (cons x xs) = canonical_json x ∷ item_texts xs

  pub member_texts : Fields → List (Keyed Str)
  member_texts end = []
  member_texts (field key v fs) = (key, canonical_json v) ∷ member_texts fs
