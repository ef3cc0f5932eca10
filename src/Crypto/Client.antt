-- ===== src/Crypto/Client.antt =====
-- `ClientKey`, `KnockRequest`, `seal_psk` and `seal_envelope` of spa-crypto/src/lib.rs.
use spa_device.Prelude.{
  ℕ, not, List, ◌∷◌, ◌++◌, length, replicate, ◌==◌, if◌then◌else◌, Option, none, some, Result, ok,
  err, ◌>>=◌, ok_or, map_err,
}
use spa_device.Wire.{
  version, sig_len, Suite, fips, modern, to_byte, Authorization, signing_bytes, encode,
}
use spa_device.Crypto.{
  CryptoError, key, sign, crypto, AgreementAlg, agreement_alg, Primitives, Agreement, Signing,
  derive, aead_seal, mac_sha512, thumbprint_of,
}
use spa_device.Crypto as Crypto

pub data Signer (E D : Type 0) : Type 0 where
  ecdsa : E → Signer E D
  ed25519 : D → Signer E D

pub record ClientKey (E D : Type 0) : Type 0 where
  pub suite : Suite
  pub signer : Signer E D
  pub public : List ℕ
  pub thumbprint : List ℕ

pub record KnockRequest : Type 0 where
  pub gate_id : List ℕ
  pub ports : List ℕ
  pub nonce : List ℕ
  pub timestamp_nanos : ℕ

abbrev pub authorization : KnockRequest → List ℕ → Authorization
authorization req key_thumbprint = record {
  nonce = req.nonce;
  timestamp_nanos = req.timestamp_nanos;
  gate_id = req.gate_id;
  key_thumbprint = key_thumbprint;
  ports = req.ports;
  signature = replicate sig_len 0;
}

module _ {E D : Type 0} ⦃signing : Signing E D⦄ where
  abbrev pub public_of : Signer E D → List ℕ
  public_of (ecdsa kp) = signing.ecdsa_public kp
  public_of (ed25519 kp) = signing.ed25519_public kp

  abbrev pub signature_of : Signer E D → ℕ → List ℕ → Result (List ℕ) CryptoError
  signature_of (ecdsa kp) seed message = ok_or Crypto.sign (signing.ecdsa_sign kp seed message)
  signature_of (ed25519 kp) seed message = ok (signing.ed25519_sign kp message)

  unfoldable pub sign_message : ClientKey E D → ℕ → List ℕ → Result (List ℕ) CryptoError
  sign_message client seed message = do
    bytes ← signature_of client.signer seed message
    if not (length bytes == sig_len) then err Crypto.sign else ok bytes

  unfoldable pub from_signer : ⦃aws : Primitives⦄ → Suite → Signer E D → ClientKey E D
  from_signer suite signer = record {
    suite = suite;
    signer = signer;
    public = public_of signer;
    thumbprint = thumbprint_of (public_of signer);
  }

  -- `generate` and `from_pkcs8`: the key pair of the suite is what the library generates, or what
  -- it reads from PKCS#8.
  unfoldable pub from_key_pairs :
      ⦃aws : Primitives⦄ → Suite → Option E → Option D → Result (ClientKey E D) CryptoError
  unfolding from_signer
  from_key_pairs fips e d = do kp ← ok_or Crypto.key e; ok (from_signer fips (ecdsa kp))
  from_key_pairs modern e d = do kp ← ok_or Crypto.key d; ok (from_signer modern (ed25519 kp))

-- The PKCS#8 documents of aws-lc-rs.
pub record Pkcs8 (E D : Type 0) : Type 0 where
  pub ecdsa_from_pkcs8 : List ℕ → Option E
  pub ed25519_from_pkcs8 : List ℕ → Option D
  pub ecdsa_to_pkcs8v1 : E → Option (List ℕ)
  pub ed25519_to_pkcs8 : D → Option (List ℕ)

module _ {E D : Type 0} ⦃pkcs8 : Pkcs8 E D⦄ where
  unfoldable pub from_pkcs8 :
      ⦃signing : Signing E D⦄
      → ⦃aws : Primitives⦄ → Suite
      → List ℕ
      → Result (ClientKey E D) CryptoError
  unfolding from_key_pairs
  from_pkcs8 suite bytes =
      from_key_pairs suite (pkcs8.ecdsa_from_pkcs8 bytes) (pkcs8.ed25519_from_pkcs8 bytes)

  -- `match &self.signer`.
  abbrev pub signer_to_pkcs8 : Signer E D → Option (List ℕ)
  signer_to_pkcs8 (ed25519 kp) = pkcs8.ed25519_to_pkcs8 kp
  signer_to_pkcs8 (ecdsa kp) = pkcs8.ecdsa_to_pkcs8v1 kp

  unfoldable pub to_pkcs8 : ClientKey E D → Result (List ℕ) CryptoError
  to_pkcs8 client = ok_or Crypto.key (signer_to_pkcs8 client.signer)

unfoldable pub sign_detached :
    {E D : Type 0} ⦃signing : Signing E D⦄
    → ClientKey E D
    → ℕ
    → List ℕ
    → Result (List ℕ) CryptoError
unfolding sign_message
sign_detached client seed message = sign_message client seed message

module _ {P : Type 0} ⦃dh : Agreement P⦄ ⦃aws : Primitives⦄ where
  -- `agree_ephemeral(…, |secret| derive(…))`
  abbrev pub client_keys : P → Suite → List ℕ → List ℕ → Option (List ℕ × List ℕ)
  client_keys ephemeral suite gate_public eph_pub =
      elim (dh.agree ephemeral (agreement_alg suite) gate_public) [
        | none ↦ none
        | some secret ↦ derive suite secret eph_pub
      ]

  -- `drawn` is the ephemeral key that the library generates for an algorithm.
  unfoldable pub seal_envelope :
      List ℕ → Suite → (AgreementAlg → Option P) → List ℕ → Result (List ℕ) CryptoError
  seal_envelope gate_public suite drawn plaintext = do
    ephemeral ← ok_or crypto (drawn (agreement_alg suite))
    eph_pub ← ok_or crypto (dh.compute_public_key ephemeral)
    let header = version ∷ to_byte suite ∷ eph_pub
    keys ← ok_or crypto (client_keys ephemeral suite gate_public eph_pub)
    ciphertext ← ok_or crypto (aead_seal suite keys.0 keys.1 header plaintext)
    ok (header ++ ciphertext)

  unfoldable pub seal_psk :
      List ℕ
      → Suite
      → List ℕ
      → List ℕ
      → KnockRequest
      → (AgreementAlg → Option P)
      → Result (List ℕ) CryptoError
  seal_psk gate_public suite token token_id req drawn = do
    let auth = authorization req token_id
    signing ← map_err Crypto.encode (signing_bytes auth)
    plaintext ←
        map_err Crypto.encode (encode (record auth { signature = mac_sha512 token signing }))
    seal_envelope gate_public suite drawn plaintext

  module _ {E D : Type 0} ⦃signing : Signing E D⦄ where
    unfoldable pub seal :
        ClientKey E D
        → List ℕ
        → KnockRequest
        → ℕ
        → (AgreementAlg → Option P)
        → Result (List ℕ) CryptoError
    seal client gate_public req seed drawn = do
      let auth = authorization req client.thumbprint
      region ← map_err Crypto.encode (signing_bytes auth)
      signature ← sign_message client seed region
      plaintext ← map_err Crypto.encode (encode (record auth { signature = signature }))
      seal_envelope gate_public client.suite drawn plaintext
