-- ===== src/Crypto/Knock.antt =====
-- spa-crypto/src/lib.rs: a sealed knock is opened by its gate, and its authenticator verifies.
use spa_device.Prelude.{
  ℕ, ◌-◌, ◌^◌, ◌≤◌, ◌<◌, ◌≡◌, refl, ap, ◌∙◌, subst, true, List, ◌++◌, length, length-append, take,
  take-append, Option, ok, bind-eq-ok, map_err, All, arith,
}
use spa_device.Prelude.Bytes.{IsArray}
use spa_device.Wire.{
  nonce_len, gate_id_len, thumbprint_len, sig_len, Suite, Authorization, IsTyped, signing_bytes,
  encode,
}
use spa_device.Wire.RoundTrip.{decode-encode}
use spa_device.Crypto as Crypto
use spa_device.Crypto.{
  CryptoError, AgreementAlg, Primitives, Agreement, Signing, verify_signature, verify_mac,
  mac_sha512, thumbprint_of,
}
use spa_device.Crypto.Gate.{GateKeypair, open_packet}
use spa_device.Crypto.Client.{
  ClientKey, KnockRequest, authorization, sign_message, from_key_pairs, seal_envelope, seal_psk,
  seal,
}
use spa_device.Crypto.Laws.{LawfulPrimitives, LawfulAgreement, LawfulSigning, IsGateKey, DrawsKeys}
use spa_device.Crypto.Envelope.{map_err-eq-ok, open-seal_envelope}
use spa_device.Crypto.CanSign.{from_key_pairs-CanSign, sign_message-array}

-- What the Rust types of a request say.
pub record IsRequest (req : KnockRequest) : Type 0 where
  pub nonce : IsArray nonce_len req.nonce
  pub timestamp : req.timestamp_nanos < 256 ^ 8
  pub gate_id : IsArray gate_id_len req.gate_id
  pub ports : All (λ p. p < 256 ^ 2) req.ports

-- The knock that a request becomes, with its authenticator.
abbrev pub signed : KnockRequest → List ℕ → List ℕ → Authorization
signed req thumbprint mac = record (authorization req thumbprint) { signature = mac }

-- The signing region does not depend on the authenticator that is put behind it.
signing_bytes-signed :
    (req : KnockRequest) (thumbprint mac : List ℕ)
    → signing_bytes (signed req thumbprint mac) ≡ signing_bytes (authorization req thumbprint)
unfolding signing_bytes
signing_bytes-signed req thumbprint mac = refl

encode-signing_bytes :
    (a : Authorization) (region : List ℕ)
    → signing_bytes a ≡ ok region
    → encode a ≡ ok (region ++ a.signature)
unfolding encode
encode-signing_bytes a region h = rw h

encode-signed :
    (req : KnockRequest) (thumbprint region mac plaintext : List ℕ)
    → signing_bytes (authorization req thumbprint) ≡ ok region
    → encode (signed req thumbprint mac) ≡ ok plaintext
    → plaintext ≡ region ++ mac
encode-signed req thumbprint region mac plaintext s e =
    let same =
      encode-signing_bytes (signed req thumbprint mac) region
        (signing_bytes-signed req thumbprint mac ∙ s) in
    cc (same, e)

take_region :
    (region mac : List ℕ)
    → length mac ≡ sig_len
    → take (length (region ++ mac) - sig_len) (region ++ mac) ≡ region
take_region region mac h =
    let size : length (region ++ mac) - sig_len ≡ length region =
      omega (arith, length-append region mac) in
    rw size (take-append region mac)

pub signed-IsTyped :
    (req : KnockRequest) (thumbprint mac : List ℕ)
    → IsRequest req
    → IsArray thumbprint_len thumbprint
    → IsArray sig_len mac
    → IsTyped (signed req thumbprint mac)
signed-IsTyped req thumbprint mac r t m = record {
  nonce = r.nonce;
  timestamp = r.timestamp;
  gate_id = r.gate_id;
  key_thumbprint = t;
  ports = r.ports;
  signature = m;
}

module _ {P : Type 0} ⦃dh : Agreement P⦄ ⦃aws : Primitives⦄ (lawful : LawfulPrimitives aws)
    (agrees : LawfulAgreement dh) where
  sealed_delivers :
      (gate : GateKeypair P) (drawn : AgreementAlg → Option P) (req : KnockRequest)
      (thumbprint region mac plaintext packet : List ℕ)
      → IsGateKey gate
      → DrawsKeys drawn
      → IsRequest req
      → IsArray thumbprint_len thumbprint
      → IsArray sig_len mac
      → signing_bytes (authorization req thumbprint) ≡ ok region
      → encode (signed req thumbprint mac) ≡ ok plaintext
      → seal_envelope gate.public gate.suite drawn plaintext ≡ ok packet
      → open_packet gate packet
        ≡ ok (record { auth = signed req thumbprint mac; signing_bytes = region })
  sealed_delivers gate drawn req thumbprint region mac plaintext packet made draws r t m s e h =
      let parts = encode-signed req thumbprint region mac plaintext s e in
      let decoded =
        decode-encode (signed req thumbprint mac) plaintext
          (signed-IsTyped req thumbprint mac r t m) e in
      let long : sig_len ≤ length plaintext =
        omega (arith, ap (length {0}) parts, length-append region mac, m.size) in
      open-seal_envelope lawful agrees gate drawn plaintext packet _ made draws decoded long h
      ∙ rw parts (rw (take_region region mac m.size))

  -- A gate opens every PSK knock that was sealed to it, finds the request in it, and the
  -- authenticator verifies under the token.
  pub open-seal_psk :
      (gate : GateKeypair P) (drawn : AgreementAlg → Option P) (req : KnockRequest)
      (token token_id packet : List ℕ)
      → IsGateKey gate
      → DrawsKeys drawn
      → IsRequest req
      → IsArray thumbprint_len token_id
      → seal_psk gate.public gate.suite token token_id req drawn ≡ ok packet
      → (region : List ℕ) × (signing_bytes (authorization req token_id) ≡ ok region)
        × (open_packet gate packet
            ≡ ok (record {
              auth = signed req token_id (mac_sha512 token region);
              signing_bytes = region;
            }))
        × (verify_mac token region (mac_sha512 token region) ≡ true)
  unfolding seal_psk mac_sha512 verify_mac
  open-seal_psk gate drawn req token token_id packet made draws r t h =
      let (region, e0, k0) =
        bind-eq-ok (map_err Crypto.encode (signing_bytes (authorization req token_id))) _ h in
      let (plaintext, e1, k1) = bind-eq-ok (map_err Crypto.encode (encode _)) _ k0 in
      let s = map_err-eq-ok _ _ e0 in
      (
        region,
        s,
        sealed_delivers gate drawn req token_id region (aws.hmac_sign token region) plaintext packet
            made draws r t (lawful.hmac_array token region) s (map_err-eq-ok _ _ e1) k1,
        lawful.hmac_verifies token region,
      )

module _ {E D : Type 0} ⦃signing : Signing E D⦄ ⦃aws : Primitives⦄ (lawful : LawfulPrimitives aws)
    (signs : LawfulSigning aws signing) where
  module _ {P : Type 0} ⦃dh : Agreement P⦄ (agrees : LawfulAgreement dh) where
    -- A gate opens every knock that a client key of its suite sealed to it, finds the request in
    -- it under the client's thumbprint, and the signature verifies under the client's public key.
    pub open-seal :
        (gate : GateKeypair P) (drawn : AgreementAlg → Option P) (req : KnockRequest) (seed : ℕ)
        (suite : Suite) (e : Option E) (d : Option D) (client : ClientKey E D) (packet : List ℕ)
        → IsGateKey gate
        → DrawsKeys drawn
        → IsRequest req
        → from_key_pairs suite e d ≡ ok client
        → client.suite ≡ gate.suite
        → seal client gate.public req seed drawn ≡ ok packet
        → (region mac : List ℕ) × (signing_bytes (authorization req client.thumbprint) ≡ ok region)
          × (open_packet gate packet
              ≡ ok (record { auth = signed req client.thumbprint mac; signing_bytes = region }))
          × (verify_signature gate.suite client.public region mac ≡ true)
    unfolding seal
    open-seal gate drawn req seed suite e d client packet made draws r built same h =
        let can = from_key_pairs-CanSign lawful signs suite e d client built in
        let (region, e0, k0) = bind-eq-ok (map_err Crypto.encode (signing_bytes _)) _ h in
        let (mac, e1, k1) = bind-eq-ok (sign_message client seed region) _ k0 in
        let (plaintext, e2, k2) = bind-eq-ok (map_err Crypto.encode (encode _)) _ k1 in
        let s = map_err-eq-ok _ _ e0 in
        let (array, verified) = sign_message-array lawful signs client seed region mac can e1 in
        (
          region,
          mac,
          s,
          sealed_delivers lawful agrees gate drawn req client.thumbprint region mac plaintext packet
              made draws r can.thumbprint array s (map_err-eq-ok _ _ e2)
              (subst (λ c. seal_envelope gate.public c drawn plaintext ≡ ok packet) same k2),
          subst (λ c. verify_signature c client.public region mac ≡ true) same verified,
        )
