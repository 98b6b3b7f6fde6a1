-- ===== src/Encoding/Utf8.antt =====
-- `bytes.decode()`: which bytes are UTF-8. A text is its bytes, so that decoding is a check.
use minima_pi_net_os.Prelude.{
  ℕ, zero, suc, ◌≤◌, ◌<◌, ◌≡◌, refl, Str, Bool, true, false, ◌&&◌, [], ◌∷◌, ◌++◌, arith, leb, ltb,
  Result, ok, raise, value_error, if◌then◌else◌,
}
use minima_pi_net_os.Encoding.Base64.{AllBytes}

-- What may follow a byte: how many bytes, and the range of the next one. A byte that starts nothing
-- leaves a range that is empty.
pub record Wanted : Type 0 where
  pub more : ℕ
  pub low : ℕ
  pub high : ℕ

abbrev wanted : ℕ → ℕ → ℕ → Wanted
wanted more low high = record { more = more; low = low; high = high }

unfoldable pub after_lead : ℕ → Wanted
after_lead c =
    if ltb c 0x80
    then wanted 0 0 0
    else (if ltb c 0xC2
        then wanted 1 1 0
        else (if ltb c 0xE0
            then wanted 1 0x80 0xBF
            else (if ltb c 0xE1
                then wanted 2 0xA0 0xBF
                else (if ltb c 0xED
                    then wanted 2 0x80 0xBF
                    else (if ltb c 0xEE
                        then wanted 2 0x80 0x9F
                        else (if ltb c 0xF0
                            then wanted 2 0x80 0xBF
                            else (if ltb c 0xF1
                                then wanted 3 0x90 0xBF
                                else (if ltb c 0xF4
                                    then wanted 3 0x80 0xBF
                                    else (if ltb c 0xF5
                                        then wanted 3 0x80 0x8F
                                        else wanted 1 1 0)))))))))

-- The bytes that are still to come: `more`, the next of them between `low` and `high`.
unfoldable pub is_utf8_from : ℕ → ℕ → ℕ → Str → Bool
is_utf8_from zero low high [] = true
is_utf8_from zero low high (c ∷ s) = let w = after_lead c in is_utf8_from w.more w.low w.high s
is_utf8_from (suc more) low high [] = false
is_utf8_from (suc more) low high (c ∷ s) = leb low c && leb c high && is_utf8_from more 0x80 0xBF s

unfoldable pub is_utf8 : Str → Bool
unfolding is_utf8_from after_lead
is_utf8 s = is_utf8_from 0 0 0 s

unfoldable pub decode : Str → Result Str
unfolding is_utf8
decode bytes = if is_utf8 bytes then ok bytes else raise value_error

abbrev pub AllAscii : Str → Type 0
AllAscii [] = Unit
AllAscii (c ∷ s) = (c < 128) × AllAscii s

ascii_from : (low high : ℕ) (s : Str) → AllAscii s → is_utf8_from 0 low high s ≡ true
unfolding is_utf8_from after_lead
ascii_from low high [] h = refl
ascii_from low high (c ∷ s) h = ground (arith, ascii_from 0 0 s)

append_from :
    (more low high : ℕ) (s t : Str)
    → is_utf8_from more low high s ≡ true
    → AllAscii t
    → is_utf8_from more low high (s ++ t) ≡ true
unfolding is_utf8_from
append_from zero low high [] t h a = ascii_from low high t a
append_from zero low high (c ∷ s) t h a =
    let w = after_lead c in append_from w.more w.low w.high s t h a
append_from (suc more) low high [] t h a = absurd (cc)
append_from (suc more) low high (c ∷ s) t h a = ground (arith, append_from more 0x80 0xBF s t)

-- A text that goes on with ASCII is UTF-8 still.
pub is_utf8-append : (s t : Str) → is_utf8 s ≡ true → AllAscii t → is_utf8 (s ++ t) ≡ true
unfolding is_utf8
is_utf8-append s t = append_from 0 0 0 s t

bytes_from :
    (more low high : ℕ) (s : Str) → high ≤ 255 → is_utf8_from more low high s ≡ true → AllBytes s
unfolding is_utf8_from after_lead
bytes_from zero low high [] le h = tt
bytes_from zero low high (c ∷ []) le h = (ground arith, tt)
bytes_from zero low high (c ∷ d ∷ s) le h =
    let w = after_lead c in
    let small : w.high ≤ 255 = ground arith in
    (ground arith, bytes_from w.more w.low w.high (d ∷ s) small h)
bytes_from (suc more) low high [] le h = absurd (cc)
bytes_from (suc more) low high (c ∷ s) le h =
    (ground arith, bytes_from more 0x80 0xBF s (omega arith) (ground arith))

-- UTF-8 is bytes.
pub is_utf8-AllBytes : (s : Str) → is_utf8 s ≡ true → AllBytes s
unfolding is_utf8
is_utf8-AllBytes s h = bytes_from 0 0 0 s (omega arith) h
