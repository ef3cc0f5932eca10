-- ===== src/Crypto/CanSign.antt =====
-- What a client key of spa-crypto/src/lib.rs signs is verified under its public key.
use spa_device.Prelude.{
  ℕ, ◌≡◌, subst, not, true, List, length, ◌==◌, Option, some, none, ok, bind-eq-ok, if-eq-ok, All,
  arith,
}
use spa_device.Prelude.Bytes.{IsArray, IsByte}
use spa_device.Wire.{thumbprint_len, sig_len, Suite, fips, modern}
use spa_device.Crypto as Crypto
use spa_device.Crypto.{
  CryptoError, AgreementAlg, Primitives, Agreement, Signing, verify_signature, verify_mac,
  mac_sha512, thumbprint_of,
}
use spa_device.Crypto.Client.{
  ecdsa, ed25519, ClientKey, signature_of, sign_message, from_signer, from_key_pairs,
}
use spa_device.Crypto.Laws.{LawfulPrimitives, LawfulSigning}
use spa_device.Crypto.Envelope.{ok_or-eq-ok}

module _ {E D : Type 0} ⦃signing : Signing E D⦄ ⦃aws : Primitives⦄ (lawful : LawfulPrimitives aws)
    (signs : LawfulSigning aws signing) where
  -- What a client key can do, whichever suite it is for.
  pub record CanSign (client : ClientKey E D) : Type 0 where
    pub verifies :
        (seed : ℕ) (message mac : List ℕ)
        → signature_of client.signer seed message ≡ ok mac
        → verify_signature client.suite client.public message mac ≡ true
    pub bytes :
        (seed : ℕ) (message mac : List ℕ)
        → signature_of client.signer seed message ≡ ok mac
        → All IsByte mac
    pub thumbprint : IsArray thumbprint_len client.thumbprint

  fips-CanSign : (kp : E) → CanSign (from_signer fips (ecdsa kp))
  unfolding from_signer verify_signature thumbprint_of
  fips-CanSign kp = record {
    verifies = λ seed message mac h.
        signs.ecdsa_verifies kp seed message mac (ok_or-eq-ok Crypto.sign _ h);
    bytes =
        λ seed message mac h. signs.ecdsa_bytes kp seed message mac (ok_or-eq-ok Crypto.sign _ h);
    thumbprint = lawful.sha256_array (signing.ecdsa_public kp);
  }

  modern-CanSign : (kp : D) → CanSign (from_signer modern (ed25519 kp))
  unfolding from_signer verify_signature thumbprint_of
  modern-CanSign kp = record {
    verifies = λ seed message mac h.
        subst (λ m. aws.verify Crypto.ed25519 (signing.ed25519_public kp) message m ≡ true) (cc h)
          (signs.ed25519_verifies kp message);
    bytes = λ seed message mac h. subst (All IsByte) (cc h) (signs.ed25519_bytes kp message);
    thumbprint = lawful.sha256_array (signing.ed25519_public kp);
  }

  pub from_key_pairs-CanSign :
      (suite : Suite) (e : Option E) (d : Option D) (client : ClientKey E D)
      → from_key_pairs suite e d ≡ ok client
      → CanSign client
  unfolding from_key_pairs
  from_key_pairs-CanSign fips (some kp) d client h = subst CanSign (cc h) (fips-CanSign kp)
  from_key_pairs-CanSign fips none d client h = cc h
  from_key_pairs-CanSign modern e (some kp) client h = subst CanSign (cc h) (modern-CanSign kp)
  from_key_pairs-CanSign modern e none client h = cc h

  pub sign_message-array :
      (client : ClientKey E D) (seed : ℕ) (message mac : List ℕ)
      → CanSign client
      → sign_message client seed message ≡ ok mac
      → IsArray sig_len mac × (verify_signature client.suite client.public message mac ≡ true)
  unfolding sign_message
  sign_message-array client seed message mac can h =
      let (bytes, e, k) = bind-eq-ok (signature_of client.signer seed message) _ h in
      let (size, same) = if-eq-ok (not (length bytes == sig_len)) _ _ k in
      let made : signature_of client.signer seed message ≡ ok mac = cc (e, same) in
      (
        record { size = ground (arith, size, same); bytes = can.bytes seed message mac made },
        can.verifies seed message mac made,
      )
