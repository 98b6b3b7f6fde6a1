-- ===== src/Cpip/Accepted.antt =====
-- What an accepted token of backend/cpip_provider.py is: nothing but what the secret has signed.
use minima_pi_net_os.Prelude.{
  str_eq, nat_eq, ℕ, ◌≡◌, refl, sym, subst, ap, ◌∙◌, Str, Bool, true, false, Option, none, some,
  List, [], ◌∷◌, ◌++◌, append_assoc, value_error, type_error, Result, bind-ok, ok-injective, ok,
  raise, ◌==◌, beq_iff, Bool-cases, inl, inr,
}
use minima_pi_net_os.Prelude.Int.{ℤ}
use minima_pi_net_os.Prelude.Text.{split}
use minima_pi_net_os.Prelude.TextLaws.{join, join-split}
use minima_pi_net_os.Encoding.Base64
use minima_pi_net_os.Encoding.Utf8
use minima_pi_net_os.Encoding.Utf8.{is_utf8}
use minima_pi_net_os.Encoding.IntText.{int_of}
use minima_pi_net_os.Cpip.Token.{
  TokenSettings, except_value, payload_of, secret_or_init, is_late, token_raw, in_time, check_parts,
  verify,
}

except_value-true : (r : Result Bool) → except_value false r ≡ ok true → r ≡ ok true
except_value-true (ok b) h = h
except_value-true (raise value_error) h = absurd (cc)
except_value-true (raise type_error) h = absurd (cc)
except_value-true (raise _) h = absurd (cc)

decode-ok : (bytes : Str) {text : Str} → Utf8.decode bytes ≡ ok text → bytes ≡ text
unfolding Utf8.decode
decode-ok bytes {text} h = elim (Bool-cases (is_utf8 bytes)) [
  | inl valid ↦ let same : ok bytes ≡ ok text = rw valid at h in ok-injective same
  | inr bad ↦ let clash : raise value_error ≡ ok text = rw bad at h in absurd (cc)
]

rejoin : (n e s : Str) → join b':' (n ∷ e ∷ s ∷ []) ≡ payload_of n e ++ b':' ∷ s
unfolding join
rejoin n e s = sym (append_assoc n (b':' ∷ e) (b':' ∷ s))

module _ (c : TokenSettings) (hmac : Str → Str → Str) where
  -- The three parts of an accepted token.
  pub record IsSigned (kept : Str) (now : ℕ) (node_id expiry_str sig : Str) (expiry : ℤ)
      : Type 0 where
    pub end : int_of expiry_str ≡ some expiry
    pub early : is_late c now expiry ≡ false
    pub signature : sig ≡ hmac kept (payload_of node_id expiry_str)

  in_time-true :
      (kept : Str) (now : ℕ) (node_id expiry_str sig : Str) (read : Option ℤ)
      → int_of expiry_str ≡ read
      → in_time c hmac kept now node_id expiry_str sig read ≡ ok true
      → (expiry : ℤ) × IsSigned kept now node_id expiry_str sig expiry
  in_time-true kept now node_id expiry_str sig none same h = absurd (cc)
  in_time-true kept now node_id expiry_str sig (some expiry) same h =
      elim (Bool-cases (is_late c now expiry)) [
        | inl late ↦ let clash : ok false ≡ ok true = rw late at h in absurd (cc)
        | inr early ↦
            let equal : ok (sig == hmac kept (payload_of node_id expiry_str)) ≡ ok true =
              rw early at h in
            (
              expiry,
              record {
                end = same;
                early = early;
                signature =
                    (beq_iff sig (hmac kept (payload_of node_id expiry_str))).0
                      (ok-injective equal);
              },
            )
      ]

  check_parts-true :
      (kept : Str) (now : ℕ) (node_id : Str) (ps : List Str)
      → check_parts c hmac kept now node_id ps ≡ ok true
      → (expiry_str : Str) × (sig : Str) × (expiry : ℤ) × (ps ≡ node_id ∷ expiry_str ∷ sig ∷ [])
        × IsSigned kept now node_id expiry_str sig expiry
  unfolding check_parts
  check_parts-true kept now node_id [] h = absurd (cc)
  check_parts-true kept now node_id (p ∷ []) h = absurd (cc)
  check_parts-true kept now node_id (p ∷ q ∷ []) h = absurd (cc)
  check_parts-true kept now node_id (p ∷ q ∷ r ∷ s ∷ ps) h = absurd (cc)
  check_parts-true kept now node_id (p ∷ q ∷ r ∷ []) h = elim (Bool-cases (p == node_id)) [
    | inl same ↦
        let name : p ≡ node_id = (beq_iff p node_id).0 same in
        let (expiry, signed) = in_time-true kept now p q r (int_of q) refl (rw same at h) in
        (
          q,
          r,
          expiry,
          ap (λ n. n ∷ q ∷ r ∷ []) name,
          subst (λ n. IsSigned kept now n q r expiry) name signed,
        )
    | inr differs ↦ let clash : ok false ≡ ok true = rw differs at h in absurd (cc)
  ]

  -- A token is accepted for a node only where it decodes to that node's name, the text of a time that
  -- has not passed, and the digest of both under the secret: nothing else can be presented.
  pub verify-signed :
      (secret : Str) (now : ℕ) (token node_id : Str)
      → (verify c hmac secret now token node_id).0 ≡ ok true
      → (expiry_str : Str) × (expiry : ℤ) × (Base64.decode token
          ≡ ok (token_raw c hmac (secret_or_init c secret) node_id expiry_str))
        × (int_of expiry_str ≡ some expiry)
        × (is_late c now expiry ≡ false)
  unfolding verify
  verify-signed secret now token node_id h =
      let kept = secret_or_init c secret in
      let (bytes, decoded, read) = bind-ok (Base64.decode token) _ (except_value-true _ h) in
      let (text, valid, checked) = bind-ok (Utf8.decode bytes) _ read in
      let (expiry_str, sig, expiry, parts, signed) =
        check_parts-true kept now node_id (split b':' text) checked in
      (
        expiry_str,
        expiry,
        decoded
            ∙ ap (λ t. ok t)
                (decode-ok bytes valid
                  ∙ sym (join-split b':' text)
                  ∙ ap (join b':') parts
                  ∙ rejoin node_id expiry_str sig
                  ∙ ap (λ x. payload_of node_id expiry_str ++ b':' ∷ x) signed.signature),
        signed.end,
        signed.early,
      )
