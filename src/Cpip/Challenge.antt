-- ===== src/Cpip/Challenge.antt =====
-- The challenge of a node of backend/cpip_provider.py: who passes it, and what a forgery does.
use minima_pi_net_os.Prelude.{
  ◌≡◌, refl, sym, ap, ◌∙◌, Str, true, ℕ, bind-ok, ok-injective, invalid_signature, ok, raise, ◌>>=◌,
}
use minima_pi_net_os.Cpip.Identity.{
  Curve, NodeIdentity, derive_key_from_seed, generate_keypair, sign, verify, generate_node_identity,
  respond_to_challenge, verify_challenge, authenticate_node,
}

-- What the package promises of signatures and of the encoding of keys.
pub record IsSound (curve : Curve) : Type 0 where
  pub signs :
      (key : curve.PrivateKey) (message : Str)
      → curve.verify (curve.public_key key) (curve.sign key message) message ≡ ok tt
  pub encodes : (key : curve.PublicKey) → curve.from_encoded (curve.encoded key) ≡ ok key

module _ (sha256 : Str → Str) (curve : Curve) where
  -- The seed of a generated identity gives the key whose public part it has.
  generated :
      (node_id seed : Str) (now : ℕ) (identity : NodeIdentity)
      → generate_node_identity sha256 curve true node_id seed now ≡ ok identity
      → (key : curve.PrivateKey) × (derive_key_from_seed sha256 curve true identity.seed ≡ ok key)
        × (identity.public_key ≡ curve.encoded (curve.public_key key))
  unfolding generate_node_identity generate_keypair
  generated node_id seed now identity h =
      let (pair, paired, made) = bind-ok (generate_keypair sha256 curve true seed) _ h in
      let (key, derived, both) = bind-ok (derive_key_from_seed sha256 curve true seed) _ paired in
      let same = ok-injective made in
      (
        key,
        ap (λ (i : NodeIdentity). derive_key_from_seed sha256 curve true i.seed) (sym same)
            ∙ derived,
        ap (λ (i : NodeIdentity). i.public_key) (sym same)
            ∙ sym (ap (λ p. p.0) (ok-injective both)),
      )

  module _ (node_id seed : Str) (now : ℕ) (identity : NodeIdentity)
      (made : generate_node_identity sha256 curve true node_id seed now ≡ ok identity)
      (sound : IsSound curve) where
    -- A node that was generated from its seed answers every challenge, and its answer is accepted.
    pub authenticate_node-respond :
        (challenge : Str)
        → (respond_to_challenge sha256 curve true identity challenge >>= λ response.
            authenticate_node sha256 curve true identity challenge response)
          ≡ ok true
    unfolding respond_to_challenge sign authenticate_node verify_challenge verify
    authenticate_node-respond challenge =
        let (key, derived, public) = generated node_id seed now identity made in
        rw (derived, public, sound.encodes (curve.public_key key), sound.signs key challenge) refl

    -- An answer that the package refuses, by InvalidSignature, is not answered false: the
    -- authentication raises that exception.
    pub authenticate_node-forged :
        (challenge response : Str)
        → ((key : curve.PublicKey) → curve.verify key response challenge ≡ raise invalid_signature)
        → authenticate_node sha256 curve true identity challenge response ≡ raise invalid_signature
    unfolding authenticate_node verify_challenge verify
    authenticate_node-forged challenge response refused =
        let (key, derived, public) = generated node_id seed now identity made in
        rw (public, sound.encodes (curve.public_key key), refused (curve.public_key key)) refl
