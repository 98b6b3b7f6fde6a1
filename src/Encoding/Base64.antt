-- ===== src/Encoding/Base64.antt =====
-- `base64.urlsafe_b64encode` and `base64.urlsafe_b64decode`, which passes over every character that
-- is not of the alphabet.
use minima_pi_net_os.Prelude.{
  nat_eq, ℕ, ◌+◌, ◌-◌, ◌*◌, ◌/◌, ◌%◌, ◌<◌, ◌≡◌, refl, ap, ap₂, ◌∙◌, Str, Bool, true, false, ◌&&◌,
  ◌||◌, Option, none, some, [], ◌∷◌, arith, leb, ltb, Result, ok, raise, value_error, ◌>>=◌, ◌==◌,
  if◌then◌else◌,
}

-- The character of a value below 64.
unfoldable pub letter : ℕ → ℕ
letter v =
    if ltb v 26
    then v + b'A'
    else (if ltb v 52
        then v - 26 + b'a'
        else (if ltb v 62 then v - 52 + b'0' else (if v == 62 then b'-' else b'_')))

unfoldable pub encode : Str → Str
encode [] = []
encode (a ∷ []) = letter (a / 4) ∷ letter (a % 4 * 16) ∷ b'=' ∷ b'=' ∷ []
encode (a ∷ b ∷ []) =
    letter (a / 4) ∷ letter (a % 4 * 16 + b / 16) ∷ letter (b % 16 * 4) ∷ b'=' ∷ []
encode (a ∷ b ∷ c ∷ bytes) =
    letter (a / 4)
    ∷ letter (a % 4 * 16 + b / 16)
    ∷ letter (b % 16 * 4 + c / 64)
    ∷ letter (c % 64)
    ∷ encode bytes

-- The value of a character, of either alphabet.
unfoldable pub value_of : ℕ → Option ℕ
value_of c =
    if leb b'A' c && leb c b'Z'
    then some (c - b'A')
    else (if leb b'a' c && leb c b'z'
        then some (c - b'a' + 26)
        else (if leb b'0' c && leb c b'9'
            then some (c - b'0' + 52)
            else (if c == b'-' || c == b'+'
                then some 62
                else (if c == b'_' || c == b'/' then some 63 else none))))

-- How far a group of four characters has come, with the bits that are left of the last one.
pub data Quad : Type 0 where
  start : Quad
  one two three : ℕ → Quad

abbrev pub next : Quad → ℕ → Quad
next start v = one v
next (one l) v = two (v % 16)
next (two l) v = three (v % 4)
next (three l) v = start

-- The byte that a character completes.
abbrev pub emit : Quad → ℕ → Result Str → Result Str
emit start v rest = rest
emit (one l) v rest = rest >>= λ bytes. ok ((l * 4 + v / 16) ∷ bytes)
emit (two l) v rest = rest >>= λ bytes. ok ((l * 16 + v / 4) ∷ bytes)
emit (three l) v rest = rest >>= λ bytes. ok ((l * 64 + v) ∷ bytes)

-- With this many paddings the group is at its end.
abbrev pub finishes : Quad → ℕ → Bool
finishes start pads = false
finishes (one l) pads = false
finishes (two l) pads = leb 2 pads
finishes (three l) pads = leb 1 pads

-- A padding counts from the third place of a group on.
abbrev pub pads_after : Quad → ℕ → ℕ
pads_after start pads = pads
pads_after (one l) pads = pads
pads_after (two l) pads = pads + 1
pads_after (three l) pads = pads + 1

abbrev pub at_end : Quad → Result Str
at_end start = ok []
at_end _ = raise value_error

unfoldable pub decode_from : Quad → ℕ → Str → Result Str
decode_from q pads [] = at_end q
decode_from q pads (c ∷ s) = elim (c == b'=') [
  | true ↦ elim (finishes q (pads + 1)) [
    | true ↦ ok []
    | false ↦ decode_from q (pads_after q pads) s
  ]
  | false ↦ elim (value_of c) [
    | none ↦ decode_from q pads s
    | some v ↦ emit q v (decode_from (next q v) 0 s)
  ]
]

unfoldable pub decode : Str → Result Str
unfolding decode_from value_of
decode s = decode_from start 0 s

abbrev pub AllBytes : Str → Type 0
AllBytes [] = Unit
AllBytes (b ∷ s) = (b < 256) × AllBytes s

value_of-letter : (v : ℕ) → v < 64 → value_of (letter v) ≡ some v
unfolding value_of letter
value_of-letter v h = ground arith

letter-ne-pad : (v : ℕ) → v < 64 → (letter v == b'=') ≡ false
unfolding letter
letter-ne-pad v h = ground arith

step :
    (q : Quad) (pads v : ℕ) (s : Str)
    → v < 64
    → decode_from q pads (letter v ∷ s) ≡ emit q v (decode_from (next q v) 0 s)
unfolding decode_from
step q pads v s h = rw (letter-ne-pad v h, value_of-letter v h, decode_from) refl

-- The four characters of three bytes.
whole_group :
    (a b c : ℕ) (s : Str)
    → a < 256
    → b < 256
    → c < 256
    → decode_from start 0 (
        letter (a / 4)
        ∷ letter (a % 4 * 16 + b / 16)
        ∷ letter (b % 16 * 4 + c / 64)
        ∷ letter (c % 64)
        ∷ s)
      ≡ (decode_from start 0 s >>= λ bytes. ok (a ∷ b ∷ c ∷ bytes))
whole_group a b c s ha hb hc =
    let v2 = a % 4 * 16 + b / 16 in
    let v3 = b % 16 * 4 + c / 64 in
    let first : a / 4 * 4 + v2 / 16 ≡ a = omega arith in
    let second : v2 % 16 * 16 + v3 / 4 ≡ b = omega arith in
    let third : v3 % 4 * 64 + c % 64 ≡ c = omega arith in
    step start 0 (a / 4) _ (omega arith)
    ∙ step (one (a / 4)) 0 v2 _ (omega arith)
    ∙ ap (emit (one (a / 4)) v2) (
        step (two (v2 % 16)) 0 v3 _ (omega arith)
        ∙ ap (emit (two (v2 % 16)) v3) (step (three (v3 % 4)) 0 (c % 64) s (omega arith)))
    ∙ rw (first, second, third) (collect (decode_from start 0 s))
  where
    collect :
        (r : Result Str)
        → (((r >>= λ bytes. ok (c ∷ bytes)) >>= λ bytes. ok (b ∷ bytes)) >>= λ bytes.
            ok (a ∷ bytes))
          ≡ (r >>= λ bytes. ok (a ∷ b ∷ c ∷ bytes))
    collect (ok bytes) = refl
    collect (raise e) = refl

-- The characters of a last byte, and of two, with their padding.
last_byte :
    (a : ℕ)
    → a < 256
    → decode_from start 0 (letter (a / 4) ∷ letter (a % 4 * 16) ∷ b'=' ∷ b'=' ∷ []) ≡ ok (a ∷ [])
unfolding decode_from
last_byte a ha =
    let first : a / 4 * 4 + a % 4 * 16 / 16 ≡ a = omega arith in
    step start 0 (a / 4) (letter (a % 4 * 16) ∷ b'=' ∷ b'=' ∷ []) (omega arith)
    ∙ step (one (a / 4)) 0 (a % 4 * 16) (b'=' ∷ b'=' ∷ []) (omega arith)
    ∙ ap (λ x. ok (x ∷ [])) first

last_bytes :
    (a b : ℕ)
    → a < 256
    → b < 256
    → decode_from start 0
        (letter (a / 4) ∷ letter (a % 4 * 16 + b / 16) ∷ letter (b % 16 * 4) ∷ b'=' ∷ [])
      ≡ ok (a ∷ b ∷ [])
unfolding decode_from
last_bytes a b ha hb =
    let v2 = a % 4 * 16 + b / 16 in
    let first : a / 4 * 4 + v2 / 16 ≡ a = omega arith in
    let second : v2 % 16 * 16 + b % 16 * 4 / 4 ≡ b = omega arith in
    step start 0 (a / 4) (letter v2 ∷ letter (b % 16 * 4) ∷ b'=' ∷ []) (omega arith)
    ∙ step (one (a / 4)) 0 v2 (letter (b % 16 * 4) ∷ b'=' ∷ []) (omega arith)
    ∙ ap (emit (one (a / 4)) v2) (step (two (v2 % 16)) 0 (b % 16 * 4) (b'=' ∷ []) (omega arith))
    ∙ ap₂ (λ x y. ok (x ∷ y ∷ [])) first second

-- Every text of bytes is decoded from its encoding.
pub decode-encode : (bytes : Str) → AllBytes bytes → decode (encode bytes) ≡ ok bytes
unfolding decode encode
decode-encode [] h = refl
decode-encode (a ∷ []) h = last_byte a h.0
decode-encode (a ∷ b ∷ []) h = last_bytes a b h.0 h.1.0
decode-encode (a ∷ b ∷ c ∷ bytes) h =
    whole_group a b c (encode bytes) h.0 h.1.0 h.1.1.0
    ∙ ap (λ r. r >>= λ rest. ok (a ∷ b ∷ c ∷ rest)) (decode-encode bytes h.1.1.1)
