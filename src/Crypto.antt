-- ===== src/Crypto.antt =====
-- spa-crypto/src/lib.rs: the helpers around aws-lc-rs. That library is not part of the repository:
-- its operations are the fields of the interfaces below, and its documented laws are in `Laws`.
pub mod Gate
pub mod Client
pub mod Laws
pub mod Envelope
pub mod Open
pub mod CanSign
pub mod Knock
pub mod Size
pub mod Export
pub mod Toy
mod Tests
use spa_device.Prelude.{
  ℕ, ◌+◌, Bool, List, [], ◌∷◌, ◌++◌, Option, none, some, Result, ok, err, ◌>>=◌, take, drop,
  map_err, ok_or,
}
use spa_device.Wire.{Suite, fips, modern, to_byte}

abbrev pub aead_nonce_len : ℕ
aead_nonce_len = 12

abbrev pub aead_key_len : ℕ
aead_key_len = 32

abbrev pub aead_tag_len : ℕ
aead_tag_len = 16

-- `b"spa-v1-envelope"`.
abbrev pub hkdf_label : List ℕ
hkdf_label =
    b's' ∷ b'p' ∷ b'a' ∷ b'-' ∷ b'v' ∷ b'1' ∷ b'-' ∷ b'e' ∷ b'n' ∷ b'v' ∷ b'e' ∷ b'l' ∷ b'o' ∷ b'p'
    ∷ b'e' ∷ []

pub data CryptoError : Type 0 where
  key sign encode crypto : CryptoError

pub data AgreementAlg : Type 0 where
  ecdh_p256 x25519 : AgreementAlg

pub data AeadAlg : Type 0 where
  aes_256_gcm chacha20_poly1305 : AeadAlg

pub data VerifyAlg : Type 0 where
  ecdsa_p256_sha256_fixed ed25519 : VerifyAlg

abbrev pub agreement_alg : Suite → AgreementAlg
agreement_alg fips = ecdh_p256
agreement_alg modern = x25519

abbrev pub aead_alg : Suite → AeadAlg
aead_alg fips = aes_256_gcm
aead_alg modern = chacha20_poly1305

abbrev pub verify_alg : Suite → VerifyAlg
verify_alg fips = ecdsa_p256_sha256_fixed
verify_alg modern = ed25519

abbrev pub eph_pub_len : Suite → ℕ
eph_pub_len fips = 65
eph_pub_len modern = 32

-- The parts of aws-lc-rs that keep no key object: `none` and `false` are its errors.
pub record Primitives : Type 0 where
  pub extract : List ℕ → List ℕ → List ℕ
  pub expand : List ℕ → List (List ℕ) → ℕ → Option (List ℕ)
  pub seal_in_place : AeadAlg → List ℕ → List ℕ → List ℕ → List ℕ → Option (List ℕ)
  pub open_in_place : AeadAlg → List ℕ → List ℕ → List ℕ → List ℕ → Option (List ℕ)
  pub verify : VerifyAlg → List ℕ → List ℕ → List ℕ → Bool
  pub hmac_sign : List ℕ → List ℕ → List ℕ
  pub hmac_verify : List ℕ → List ℕ → List ℕ → Bool
  pub sha256 : List ℕ → List ℕ

-- Key agreement, over its private keys `P`.
pub record Agreement (P : Type 0) : Type 0 where
  pub algorithm : P → AgreementAlg
  pub from_private_key : AgreementAlg → List ℕ → Option P
  pub compute_public_key : P → Option (List ℕ)
  pub agree : P → AgreementAlg → List ℕ → Option (List ℕ)

-- Key pairs that sign: `E` for ECDSA, `D` for Ed25519. ECDSA signs with randomness.
pub record Signing (E D : Type 0) : Type 0 where
  pub ecdsa_sign : E → ℕ → List ℕ → Option (List ℕ)
  pub ed25519_sign : D → List ℕ → List ℕ
  pub ecdsa_public : E → List ℕ
  pub ed25519_public : D → List ℕ

module _ ⦃aws : Primitives⦄ where
  unfoldable pub derive : Suite → List ℕ → List ℕ → Option (List ℕ × List ℕ)
  derive suite shared eph_pub =
      let prk = aws.extract [] shared in
      let info : List (List ℕ) = hkdf_label ∷ (to_byte suite ∷ []) ∷ eph_pub ∷ [] in
      elim (aws.expand prk info (aead_key_len + aead_nonce_len)) [
        | none ↦ none
        | some out ↦ some (take aead_key_len out, drop aead_key_len out)
      ]

  unfoldable pub aead_seal : Suite → List ℕ → List ℕ → List ℕ → List ℕ → Option (List ℕ)
  aead_seal suite = aws.seal_in_place (aead_alg suite)

  unfoldable pub aead_open : Suite → List ℕ → List ℕ → List ℕ → List ℕ → Option (List ℕ)
  aead_open suite = aws.open_in_place (aead_alg suite)

  unfoldable pub verify_signature : Suite → List ℕ → List ℕ → List ℕ → Bool
  verify_signature suite = aws.verify (verify_alg suite)

  unfoldable pub verify_mac : List ℕ → List ℕ → List ℕ → Bool
  verify_mac shared message mac = aws.hmac_verify shared message mac

  unfoldable pub mac_sha512 : List ℕ → List ℕ → List ℕ
  mac_sha512 shared message = aws.hmac_sign shared message

  unfoldable pub thumbprint_of : List ℕ → List ℕ
  thumbprint_of public_key = aws.sha256 public_key
