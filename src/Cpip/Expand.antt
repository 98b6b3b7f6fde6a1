-- ===== src/Cpip/Expand.antt =====
-- The derivation of keys and the encryption of `CoffeeCipher` of backend/cpip_provider.py.
use minima_pi_net_os.Prelude.{
  ℕ, zero, suc, ◌+◌, ◌*◌, ◌/◌, ◌≤◌, ◌<◌, ◌≡◌, refl, ap, ◌∙◌, Str, true, false, Option, List, [],
  ◌∷◌, ◌++◌, length, length-append, take, drop, arith, ltb, value_error, invalid_tag, ok, raise,
  ◌>>=◌, Bool-cases, inl, inr,
}
use minima_pi_net_os.Cpip.Token.{except_value}
use minima_pi_net_os.Cpip.Cipher.{
  Aead, expand_rounds, hkdf_expand, hkdf, key_from_recipe, key_or, encrypt, decrypt,
}

length-take {ℓ} : {A : Type ℓ} (n : ℕ) (xs : List A) → n ≤ length xs → length (take n xs) ≡ n
unfolding take
length-take zero xs h = refl
length-take (suc n) [] h = absurd (omega arith)
length-take (suc n) (x ∷ xs) h = omega (arith, length-take n xs)

take-append {ℓ} :
    {A : Type ℓ} (n : ℕ) (xs ys : List A)
    → length xs ≡ n
    → (take n (xs ++ ys) ≡ xs) × (drop n (xs ++ ys) ≡ ys)
unfolding take
take-append zero [] ys h = (refl, refl)
take-append zero (x ∷ xs) ys h = absurd (omega arith)
take-append (suc n) [] ys h = absurd (omega arith)
take-append (suc n) (x ∷ xs) ys h =
    let (front, back) = take-append n xs ys (omega arith) in (ap (λ zs. x ∷ zs) front, back)

module _ (hmac : Str → Str → Str)
    (wide : (key message : Str) → length (hmac key message) ≡ 32) where
  expand_rounds-ok :
      (prk info : Str) (rounds i : ℕ) (t okm : Str)
      → rounds + i ≤ 256
      → (all : Str) × (expand_rounds hmac prk info rounds i t okm ≡ ok all)
        × (length all ≡ length okm + rounds * 32)
  unfolding expand_rounds
  expand_rounds-ok prk info zero i t okm h = (okm, refl, omega arith)
  expand_rounds-ok prk info (suc rounds) i t okm h =
      let t' = hmac prk (t ++ (info ++ i ∷ [])) in
      let (all, made, long) =
        expand_rounds-ok prk info rounds (i + 1) t' (okm ++ t') (omega arith) in
      let small : ltb 255 i ≡ false = ground arith in
      rw small
        (all, made, omega (arith, long, length-append {0} okm t', wide prk (t ++ (info ++ i ∷ []))))

  expand_rounds-raise :
      (prk info : Str) (rounds i : ℕ) (t okm : Str)
      → 256 < rounds + i
      → i ≤ 256
      → expand_rounds hmac prk info rounds i t okm ≡ raise value_error
  unfolding expand_rounds
  expand_rounds-raise prk info zero i t okm h le = absurd (omega arith)
  expand_rounds-raise prk info (suc rounds) i t okm h le = elim (Bool-cases (ltb 255 i)) [
    | inl over ↦ rw over refl
    | inr under ↦
        rw under (expand_rounds-raise prk info rounds (i + 1) _ _ (omega arith) (ground arith))
  ]

  -- A key of any length up to 8160 bytes is derived, and has that length.
  pub hkdf-length :
      (ikm salt info : Str) (n : ℕ)
      → n ≤ 8160
      → (okm : Str) × (hkdf hmac ikm salt info n ≡ ok okm) × (length okm ≡ n)
  unfolding hkdf hkdf_expand
  hkdf-length ikm salt info n h =
      let (all, made, long) =
        expand_rounds-ok (hmac salt ikm) info ((n + 31) / 32) 1 [] [] (omega arith) in
      (
        take n all,
        ap (λ r. r >>= λ okm. ok (take n okm)) made,
        length-take n all (omega (arith, long)),
      )

  -- The blocks of a longer key cannot be numbered by one byte: the derivation raises ValueError.
  pub hkdf_too_long :
      (ikm salt info : Str) (n : ℕ) → 8160 < n → hkdf hmac ikm salt info n ≡ raise value_error
  unfolding hkdf hkdf_expand
  hkdf_too_long ikm salt info n h =
      ap (λ r. r >>= λ okm. ok (take n okm))
        (expand_rounds-raise (hmac salt ikm) info ((n + 31) / 32) 1 [] [] (omega arith)
          (omega arith))

  module _ (sha256 : Str → Str) (aead : Aead) (covert_key : Str) where
    abbrev Derived : Str → Str → Type 0
    Derived base_key recipe = (key : Str) × (key_from_recipe hmac sha256 base_key recipe ≡ ok key)

    key_of_recipe : (base_key recipe : Str) → Derived base_key recipe
    unfolding key_from_recipe
    key_of_recipe base_key recipe =
        let (okm, made, long) = hkdf-length base_key _ _ 32 (omega arith) in (okm, made)

    decrypt_parts :
        (nonce sealed : Str) (base_key : Option Str) (recipe : Str)
        → length nonce ≡ 12
        → 16 ≤ length sealed
        → decrypt hmac sha256 aead true covert_key (nonce ++ sealed) base_key recipe
          ≡ except_value [] (
              aead.decrypt
                (key_of_recipe (key_or hmac sha256 aead true covert_key base_key) recipe).0
                nonce
                sealed)
    unfolding decrypt
    decrypt_parts nonce sealed base_key recipe twelve long =
        let (key, made) = key_of_recipe (key_or hmac sha256 aead true covert_key base_key) recipe in
        let enough : ltb (length (nonce ++ sealed)) 28 ≡ false =
          ground (arith, length-append {0} nonce sealed) in
        let (front, back) = take-append 12 nonce sealed twelve in
        rw (enough, made, front, back) refl

    -- What was encrypted with a key and a recipe is decrypted with them, where the package is there:
    -- AES-GCM opens what it has sealed, with a tag of 16 bytes, and the nonce has 12.
    pub decrypt-encrypt :
        ((key nonce text : Str)
          → (aead.decrypt key nonce (aead.encrypt key nonce text) ≡ ok text)
            × (length (aead.encrypt key nonce text) ≡ length text + 16))
        → (nonce plaintext : Str) (base_key : Option Str) (recipe : Str) → length nonce ≡ 12
        → (encrypt hmac sha256 aead true covert_key nonce plaintext base_key recipe >>= λ sealed.
            decrypt hmac sha256 aead true covert_key sealed base_key recipe)
          ≡ ok plaintext
    unfolding encrypt
    decrypt-encrypt law nonce plaintext base_key recipe twelve =
        let (key, made) = key_of_recipe (key_or hmac sha256 aead true covert_key base_key) recipe in
        let (opened, longer) = law key nonce plaintext in
        rw made (
          decrypt_parts nonce (aead.encrypt key nonce plaintext) base_key recipe twelve
            (omega (arith, longer))
          ∙ ap (except_value []) opened)

    -- A text that AES-GCM refuses as forged, by InvalidTag, makes the decryption raise that exception:
    -- the empty bytes are returned for ValueError and TypeError only.
    pub decrypt_forged :
        (nonce sealed : Str) (base_key : Option Str) (recipe : Str)
        → length nonce ≡ 12
        → 16 ≤ length sealed
        → ((key : Str) → aead.decrypt key nonce sealed ≡ raise invalid_tag)
        → decrypt hmac sha256 aead true covert_key (nonce ++ sealed) base_key recipe
          ≡ raise invalid_tag
    decrypt_forged nonce sealed base_key recipe twelve long refused =
        decrypt_parts nonce sealed base_key recipe twelve long ∙ ap (except_value []) (refused _)
