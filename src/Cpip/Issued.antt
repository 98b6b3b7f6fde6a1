-- ===== src/Cpip/Issued.antt =====
-- Which tokens `RpcToken.verify` of backend/cpip_provider.py accepts.
use minima_pi_net_os.Prelude.{
  str_eq, nat_eq, ℕ, suc, ◌*◌, ◌<◌, ◌≡◌, refl, ap, ◌∙◌, Str, Bool, true, false, not, ◌&&◌, ◌||◌,
  Option, List, [], ◌∷◌, ◌++◌, append_assoc, length, any, arith, ltb, leb, Result, ok, ◌==◌,
  beq_iff, if◌then◌else◌, Bool-cases, inl, inr,
}
use minima_pi_net_os.Prelude.Text.{split, split_from}
use minima_pi_net_os.Prelude.TextLaws.{AllNot, split-part, split-whole}
use minima_pi_net_os.Json.Number.{decimal}
use minima_pi_net_os.Json.Digits.{AllDigits, decimal-AllDigits}
use minima_pi_net_os.Encoding.Base64
use minima_pi_net_os.Encoding.Base64.{AllBytes, decode-encode}
use minima_pi_net_os.Encoding.Utf8
use minima_pi_net_os.Encoding.Utf8.{is_utf8, AllAscii, is_utf8-append, is_utf8-AllBytes}
use minima_pi_net_os.Encoding.IntText.{int_of, int_of-decimal}
use minima_pi_net_os.Cpip.Token.{
  TokenSettings, except_value, payload_of, secret_or_init, expiry_of, token_raw, generate, in_time,
  check_parts, verify,
}

-- A digest in hexadecimal.
abbrev pub AllHex : Str → Type 0
AllHex [] = Unit
AllHex (c ∷ s) = ((leb b'0' c && leb c b'9' || leb b'a' c && leb c b'f') ≡ true) × AllHex s

AllHex-AllNot : (s : Str) → AllHex s → AllNot b':' s
AllHex-AllNot [] h = tt
AllHex-AllNot (c ∷ s) h = (ground (arith, beq_iff c b':'), AllHex-AllNot s h.1)

AllHex-AllAscii : (s : Str) → AllHex s → AllAscii s
AllHex-AllAscii [] h = tt
AllHex-AllAscii (c ∷ s) h = (ground arith, AllHex-AllAscii s h.1)

AllDigits-AllNot : (s : Str) → AllDigits s → AllNot b':' s
AllDigits-AllNot [] h = tt
AllDigits-AllNot (c ∷ s) h = (ground (arith, beq_iff c b':'), AllDigits-AllNot s h.2)

AllDigits-AllAscii : (s : Str) → AllDigits s → AllAscii s
AllDigits-AllAscii [] h = tt
AllDigits-AllAscii (c ∷ s) h = (omega (arith, h.1), AllDigits-AllAscii s h.2)

AllAscii-append : (s t : Str) → AllAscii s → AllAscii t → AllAscii (s ++ t)
AllAscii-append [] t h k = k
AllAscii-append (c ∷ s) t h k = (h.0, AllAscii-append s t h.1 k)

abbrev pub has_colon : Str → Bool
has_colon s = any (λ c. c == b':') s

no_colon-AllNot : (s : Str) → has_colon s ≡ false → AllNot b':' s
unfolding any
no_colon-AllNot [] h = tt
no_colon-AllNot (c ∷ s) h = (ground arith, no_colon-AllNot s (ground arith))

-- A text with a part behind it has one part more, at least.
length-split_from-gt :
    (acc s t : Str) → length (split b':' t) < length (split_from b':' acc (s ++ b':' ∷ t))
unfolding split_from
length-split_from-gt acc [] t = omega arith
length-split_from-gt acc (c ∷ s) t = elim (Bool-cases (c == b':')) [
  | inl ends ↦ rw ends (omega (arith, length-split_from-gt [] s t))
  | inr goes_on ↦ rw goes_on (length-split_from-gt (acc ++ c ∷ []) s t)
]

length-split-colon :
    (acc s t : Str)
    → has_colon s ≡ true
    → suc (length (split b':' t)) < length (split_from b':' acc (s ++ b':' ∷ t))
unfolding split_from any
length-split-colon acc [] t h = absurd (cc)
length-split-colon acc (c ∷ s) t h = elim (Bool-cases (c == b':')) [
  | inl ends ↦ rw ends (omega (arith, length-split_from-gt [] s t))
  | inr goes_on ↦ rw goes_on (length-split-colon (acc ++ c ∷ []) s t (rw goes_on at h))
]

module _ (c : TokenSettings) (hmac : Str → Str → Str) where
  kept_again : (k : Str) → c.covert_key ≡ k → secret_or_init c k ≡ k
  unfolding secret_or_init
  kept_again [] h = h
  kept_again (b ∷ k) h = refl

  secret_or_init_twice :
      (secret : Str) → secret_or_init c (secret_or_init c secret) ≡ secret_or_init c secret
  unfolding secret_or_init
  secret_or_init_twice [] = kept_again c.covert_key refl
  secret_or_init_twice (b ∷ secret) = refl

  check_parts_many :
      (secret : Str) (now : ℕ) (node_id : Str) (ps : List Str)
      → 3 < length ps
      → check_parts c hmac secret now node_id ps ≡ ok false
  unfolding check_parts
  check_parts_many secret now node_id [] h = refl
  check_parts_many secret now node_id (p ∷ []) h = refl
  check_parts_many secret now node_id (p ∷ q ∷ []) h = refl
  check_parts_many secret now node_id (p ∷ q ∷ r ∷ []) h = absurd (omega arith)
  check_parts_many secret now node_id (p ∷ q ∷ r ∷ s ∷ ps) h = refl

  verify-encode :
      (secret : Str) (now : ℕ) (bytes node_id : Str)
      → is_utf8 bytes ≡ true
      → (verify c hmac secret now (Base64.encode bytes) node_id).0
        ≡ except_value false
            (check_parts c hmac (secret_or_init c secret) now node_id (split b':' bytes))
  unfolding verify Utf8.decode
  verify-encode secret now bytes node_id h =
      rw (decode-encode bytes (is_utf8-AllBytes bytes h), h) refl

  module _ (hex : (key message : Str) → AllHex (hmac key message)) where
    module _ (kept node_id : Str) (expiry : ℕ) where
      abbrev end_text : Str
      end_text = decimal expiry

      abbrev sig : Str
      sig = hmac kept (payload_of node_id end_text)

      abbrev rest : Str
      rest = end_text ++ b':' ∷ sig

      raw_parts : token_raw c hmac kept node_id end_text ≡ node_id ++ b':' ∷ rest
      raw_parts = append_assoc node_id (b':' ∷ end_text) (b':' ∷ sig)

      raw-is_utf8 : is_utf8 node_id ≡ true → is_utf8 (token_raw c hmac kept node_id end_text) ≡ true
      raw-is_utf8 h =
          ap is_utf8 raw_parts
          ∙ is_utf8-append node_id (b':' ∷ rest) h (
            omega arith,
            AllAscii-append end_text (b':' ∷ sig)
                (AllDigits-AllAscii end_text (decimal-AllDigits expiry))
                (omega arith, AllHex-AllAscii sig (hex kept (payload_of node_id end_text))),
          )

      split-rest : split b':' rest ≡ end_text ∷ sig ∷ []
      split-rest =
          split-part b':' end_text sig (AllDigits-AllNot end_text (decimal-AllDigits expiry))
          ∙ ap (λ ps. end_text ∷ ps)
              (split-whole b':' sig (AllHex-AllNot sig (hex kept (payload_of node_id end_text))))

      -- The signature is compared with itself.
      in_time-signed :
          (now : ℕ)
          → in_time c hmac kept now node_id end_text sig (int_of end_text)
            ≡ ok (not (ltb (expiry * c.second) now))
      in_time-signed now =
          rw (int_of-decimal expiry, (beq_iff sig sig).1 refl)
            (late_or (ltb (expiry * c.second) now))
        where
          late_or : (b : Bool) → Path (Result Bool) (if b then ok false else ok true) (ok (not b))
          late_or true = refl
          late_or false = refl

      check_signed :
          (now : ℕ) (other : Str)
          → check_parts c hmac kept now other (node_id ∷ end_text ∷ sig ∷ [])
            ≡ ok (node_id == other && not (ltb (expiry * c.second) now))
      unfolding check_parts
      check_signed now other = elim (Bool-cases (node_id == other)) [
        | inl same ↦ rw same (in_time-signed now)
        | inr differs ↦ rw differs refl
      ]

      split-raw :
          has_colon node_id ≡ false
          → split b':' (token_raw c hmac kept node_id end_text) ≡ node_id ∷ end_text ∷ sig ∷ []
      split-raw plain =
          ap (split b':') raw_parts
          ∙ split-part b':' node_id rest (no_colon-AllNot node_id plain)
          ∙ ap (λ ps. node_id ∷ ps) split-rest

      length-split-raw :
          has_colon node_id ≡ true
          → 3 < length (split b':' (token_raw c hmac kept node_id end_text))
      length-split-raw many = omega (
        arith,
        length-split-colon [] node_id rest many,
        ap length split-rest,
        ap (λ t. length (split b':' t)) raw_parts,
      )

      check_raw :
          (now : ℕ) (other : Str)
          → except_value false (
              check_parts c hmac kept now other
                (split b':' (token_raw c hmac kept node_id end_text)))
            ≡ ok
                (not (has_colon node_id) && (node_id == other && not (ltb (expiry * c.second) now)))
      check_raw now other = elim (Bool-cases (has_colon node_id)) [
        | inl many ↦
            rw
              (
                many,
                check_parts_many kept now other
                    (split b':' (token_raw c hmac kept node_id end_text)) (length-split-raw many),
              )
              refl
        | inr plain ↦ rw (plain, split-raw plain, check_signed now other) refl
      ]

    -- A token that was generated for a node is accepted exactly for that node, up to its end and not
    -- later, provided that the node's name has no colon in it; a token for a name with a colon is
    -- never accepted. The name is UTF-8, and the digests are hexadecimal.
    pub verify-issued :
        (secret node_id other : Str) (now later : ℕ) (ttl : Option ℕ)
        → is_utf8 node_id ≡ true
        → let (token, kept) = generate c hmac secret now node_id ttl in
          (verify c hmac kept later token other).0
          ≡ ok (
              not (has_colon node_id)
              && (node_id == other && not (ltb (expiry_of c now ttl * c.second) later)))
    unfolding generate
    verify-issued secret node_id other now later ttl h =
        let kept = secret_or_init c secret in
        let expiry = expiry_of c now ttl in
        verify-encode kept later (token_raw c hmac kept node_id (decimal expiry)) other
          (raw-is_utf8 kept node_id expiry h)
        ∙ ap
            (λ k. except_value false (
              check_parts c hmac k later other
                (split b':' (token_raw c hmac kept node_id (decimal expiry)))))
            (secret_or_init_twice secret)
        ∙ check_raw kept node_id expiry later other
