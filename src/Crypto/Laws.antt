-- ===== src/Crypto/Laws.antt =====
-- What spa-crypto/src/lib.rs relies on in aws-lc-rs, as documented there: hypotheses of the theorems.
use spa_device.Prelude.{ℕ, ◌+◌, ◌≤◌, ◌≡◌, true, List, length, Option, some, All}
use spa_device.Prelude.Bytes.{IsByte, IsArray}
use spa_device.Wire.{sig_len, thumbprint_len}
use spa_device.Crypto.Gate.{GateKeypair}
use spa_device.Crypto.Client.{Pkcs8}
use spa_device.Crypto.{
  aead_tag_len, AgreementAlg, agreement_alg, ecdh_p256, x25519, AeadAlg, ecdsa_p256_sha256_fixed,
  ed25519, Primitives, Agreement, Signing,
}

-- The AEAD opens what it sealed, under the same key, nonce and header; its tag has 16 bytes;
-- what it opens is a string of bytes, and no longer than what was sealed; an
-- HMAC-SHA512 has 64 bytes and verifies; a SHA-256 has 32 bytes.
pub record LawfulPrimitives (aws : Primitives) : Type 0 where
  pub open-seal :
      (alg : AeadAlg) (key nonce aad plain sealed : List ℕ)
      → aws.seal_in_place alg key nonce aad plain ≡ some sealed
      → aws.open_in_place alg key nonce aad sealed ≡ some plain
  pub length-seal :
      (alg : AeadAlg) (key nonce aad plain sealed : List ℕ)
      → aws.seal_in_place alg key nonce aad plain ≡ some sealed
      → length sealed ≡ length plain + aead_tag_len
  pub sha256_array : (message : List ℕ) → IsArray thumbprint_len (aws.sha256 message)
  pub open_bytes :
      (alg : AeadAlg) (key nonce aad sealed plain : List ℕ)
      → aws.open_in_place alg key nonce aad sealed ≡ some plain
      → All IsByte plain × (length plain ≤ length sealed)
  pub hmac_array : (key message : List ℕ) → IsArray sig_len (aws.hmac_sign key message)
  pub hmac_verifies :
      (key message : List ℕ) → aws.hmac_verify key message (aws.hmac_sign key message) ≡ true

abbrev pub public_len : AgreementAlg → ℕ
public_len ecdh_p256 = 65
public_len x25519 = 32

-- Both sides of an agreement have the same secret; a key is for the algorithm that it was read for;
-- public keys have their encoded length.
pub record LawfulAgreement {P : Type 0} (dh : Agreement P) : Type 0 where
  pub agree_comm :
      (alg : AgreementAlg) (a b : P) (public_a public_b : List ℕ)
      → dh.algorithm a ≡ alg
      → dh.algorithm b ≡ alg
      → dh.compute_public_key a ≡ some public_a
      → dh.compute_public_key b ≡ some public_b
      → dh.agree a alg public_b ≡ dh.agree b alg public_a
  pub algorithm-from_private_key :
      (alg : AgreementAlg) (raw : List ℕ) (p : P)
      → dh.from_private_key alg raw ≡ some p
      → dh.algorithm p ≡ alg
  pub length-public :
      (a : P) (public : List ℕ)
      → dh.compute_public_key a ≡ some public
      → length public ≡ public_len (dh.algorithm a)

-- A signature verifies under the key that made it; it is a string of bytes.
pub record LawfulSigning {E D : Type 0} (aws : Primitives) (signing : Signing E D) : Type 0 where
  pub ecdsa_verifies :
      (kp : E) (seed : ℕ) (message mac : List ℕ)
      → signing.ecdsa_sign kp seed message ≡ some mac
      → aws.verify ecdsa_p256_sha256_fixed (signing.ecdsa_public kp) message mac ≡ true
  pub ed25519_verifies :
      (kp : D) (message : List ℕ)
      → aws.verify ed25519 (signing.ed25519_public kp) message (signing.ed25519_sign kp message)
        ≡ true
  pub ecdsa_bytes :
      (kp : E) (seed : ℕ) (message mac : List ℕ)
      → signing.ecdsa_sign kp seed message ≡ some mac
      → All IsByte mac
  pub ed25519_bytes : (kp : D) (message : List ℕ) → All IsByte (signing.ed25519_sign kp message)

-- A key pair that was written as PKCS#8 is read back.
pub record LawfulPkcs8 {E D : Type 0} (pkcs8 : Pkcs8 E D) : Type 0 where
  pub ecdsa_reads :
      (kp : E) (doc : List ℕ)
      → pkcs8.ecdsa_to_pkcs8v1 kp ≡ some doc
      → pkcs8.ecdsa_from_pkcs8 doc ≡ some kp
  pub ed25519_reads :
      (kp : D) (doc : List ℕ)
      → pkcs8.ed25519_to_pkcs8 kp ≡ some doc
      → pkcs8.ed25519_from_pkcs8 doc ≡ some kp

-- Public keys and documents are strings of bytes.
pub record MakesBytes {P E D : Type 0} (dh : Agreement P) (pkcs8 : Pkcs8 E D)
    (signing : Signing E D) : Type 0 where
  pub ed25519_public_bytes : (kp : D) → All IsByte (signing.ed25519_public kp)
  pub public_bytes :
      (a : P) (public : List ℕ) → dh.compute_public_key a ≡ some public → All IsByte public
  pub ecdsa_doc_bytes :
      (kp : E) (doc : List ℕ) → pkcs8.ecdsa_to_pkcs8v1 kp ≡ some doc → All IsByte doc
  pub ed25519_doc_bytes :
      (kp : D) (doc : List ℕ) → pkcs8.ed25519_to_pkcs8 kp ≡ some doc → All IsByte doc

module _ {P : Type 0} ⦃dh : Agreement P⦄ where
  -- The key pair was built by `generate` or by `from_raw_private`.
  pub record IsGateKey (gate : GateKeypair P) : Type 0 where
    pub algorithm : dh.algorithm gate.private ≡ agreement_alg gate.suite
    pub public : dh.compute_public_key gate.private ≡ some gate.public

  -- Keys are generated for the algorithm that they are asked for.
  abbrev pub DrawsKeys : (AgreementAlg → Option P) → Type 0
  DrawsKeys drawn = (alg : AgreementAlg) (p : P) → drawn alg ≡ some p → dh.algorithm p ≡ alg
