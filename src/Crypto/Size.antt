-- ===== src/Crypto/Size.antt =====
-- The size of a sealed knock (spa-crypto/src/lib.rs), against the size test of the XDP program
-- (spa-ebpf/src/main.rs).
use spa_device.Prelude.{
  ℕ, ◌+◌, ◌*◌, ◌≤◌, ◌≡◌, ◌∙◌, ap, List, length, length-append, Option, ok, bind-eq-ok, map_err,
  arith,
}
use spa_device.Prelude.Bytes.{IsArray}
use spa_device.Wire.{
  thumbprint_len, Suite, fips, modern, Authorization, IsTyped, signing_bytes, encode,
}
use spa_device.Wire.RoundTrip.{encode-layout, length-layout, count_bounds}
use spa_device.Crypto as Crypto
use spa_device.Crypto.{
  aead_tag_len, AgreementAlg, agreement_alg, aead_alg, aead_seal, eph_pub_len, Primitives,
  Agreement, Signing, mac_sha512,
}
use spa_device.Crypto.Client.{
  ClientKey, KnockRequest, authorization, from_key_pairs, sign_message, seal_envelope, seal_psk,
  seal,
}
use spa_device.Crypto.Laws.{LawfulPrimitives, LawfulAgreement, LawfulSigning, DrawsKeys, public_len}
use spa_device.Crypto.Envelope.{map_err-eq-ok, seal_envelope_inv, eph_pub_len-public_len}
use spa_device.Crypto.CanSign.{sign_message-array, from_key_pairs-CanSign}
use spa_device.Crypto.Knock.{IsRequest, signed, signed-IsTyped}
use spa_device.Ebpf.Layout.{knock_min, knock_max}

-- What the XDP program lets through: the size of a knock of the suite.
abbrev pub HasKnockSize : Suite → ℕ → List ℕ → Type 0
HasKnockSize suite ports packet =
    (length packet ≡ 156 + eph_pub_len suite + 2 * ports)
    × ((knock_min ≤ length packet) × (length packet ≤ knock_max))

in_window :
    (suite : Suite) (n size : ℕ)
    → size ≡ 156 + eph_pub_len suite + 2 * n
    → (1 ≤ n) × (n ≤ 8)
    → (knock_min ≤ size) × (size ≤ knock_max)
in_window fips n size h bounds = (omega arith, omega arith)
in_window modern n size h bounds = (omega arith, omega arith)

module _ {P : Type 0} ⦃dh : Agreement P⦄ ⦃aws : Primitives⦄ (lawful : LawfulPrimitives aws)
    (agrees : LawfulAgreement dh) where
  envelope_size :
      (suite : Suite) (gate_public : List ℕ) (drawn : AgreementAlg → Option P) (a : Authorization)
      (plaintext packet : List ℕ)
      → DrawsKeys drawn
      → IsTyped a
      → encode a ≡ ok plaintext
      → seal_envelope gate_public suite drawn plaintext ≡ ok packet
      → HasKnockSize suite (length a.ports) packet
  unfolding aead_seal
  envelope_size suite gate_public drawn a plaintext packet draws t e h =
      let (shape, good) = encode-layout a plaintext e in
      let seal = seal_envelope_inv gate_public suite drawn plaintext packet h in
      let public : length seal.eph_pub ≡ eph_pub_len suite =
        agrees.length-public seal.ephemeral seal.eph_pub seal.public_eq
        ∙ ap public_len (draws (agreement_alg suite) seal.ephemeral seal.generated)
        ∙ eph_pub_len-public_len suite in
      let body : length plaintext ≡ 138 + 2 * length a.ports =
        ap (length {0}) shape ∙ length-layout a t in
      let tagged =
        lawful.length-seal (aead_alg suite) seal.keys.0 seal.keys.1 _ plaintext seal.ciphertext
          seal.sealed in
      let whole : length packet ≡ 156 + eph_pub_len suite + 2 * length a.ports = omega (
        arith,
        ap (length {0}) seal.packet_eq,
        length-append seal.eph_pub seal.ciphertext,
        public,
        body,
        tagged,
      ) in
      (
        whole,
        in_window suite (length a.ports) (length packet) whole (count_bounds (length a.ports) good),
      )

  -- A PSK knock has the size that the XDP program lets through.
  pub seal_psk-HasKnockSize :
      (suite : Suite) (gate_public token token_id : List ℕ) (req : KnockRequest)
      (drawn : AgreementAlg → Option P) (packet : List ℕ)
      → DrawsKeys drawn
      → IsRequest req
      → IsArray thumbprint_len token_id
      → seal_psk gate_public suite token token_id req drawn ≡ ok packet
      → HasKnockSize suite (length req.ports) packet
  unfolding seal_psk mac_sha512
  seal_psk-HasKnockSize suite gate_public token token_id req drawn packet draws r t h =
      let (region, e0, k0) =
        bind-eq-ok (map_err Crypto.encode (signing_bytes (authorization req token_id))) _ h in
      let (plaintext, e1, k1) = bind-eq-ok (map_err Crypto.encode (encode _)) _ k0 in
      envelope_size suite gate_public drawn (signed req token_id (aws.hmac_sign token region))
        plaintext packet draws (signed-IsTyped req token_id _ r t (lawful.hmac_array token region))
        (map_err-eq-ok _ _ e1) k1

  module _ {E D : Type 0} ⦃signing : Signing E D⦄ (signs : LawfulSigning aws signing) where
    -- A signed knock has the size that the XDP program lets through.
    pub seal-HasKnockSize :
        (suite : Suite) (e : Option E) (d : Option D) (client : ClientKey E D)
        (gate_public : List ℕ) (req : KnockRequest) (seed : ℕ) (drawn : AgreementAlg → Option P)
        (packet : List ℕ)
        → DrawsKeys drawn
        → IsRequest req
        → from_key_pairs suite e d ≡ ok client
        → seal client gate_public req seed drawn ≡ ok packet
        → HasKnockSize client.suite (length req.ports) packet
    unfolding seal
    seal-HasKnockSize suite e d client gate_public req seed drawn packet draws r built h =
        let can = from_key_pairs-CanSign lawful signs suite e d client built in
        let (region, e0, k0) = bind-eq-ok (map_err Crypto.encode (signing_bytes _)) _ h in
        let (mac, e1, k1) = bind-eq-ok (sign_message client seed region) _ k0 in
        let (plaintext, e2, k2) = bind-eq-ok (map_err Crypto.encode (encode _)) _ k1 in
        let (array, _) = sign_message-array lawful signs client seed region mac can e1 in
        envelope_size client.suite gate_public drawn (signed req client.thumbprint mac) plaintext
          packet draws (signed-IsTyped req client.thumbprint mac r can.thumbprint array)
          (map_err-eq-ok _ _ e2) k2
