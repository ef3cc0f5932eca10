-- ===== src/Crypto/Envelope.antt =====
-- spa-crypto/src/lib.rs: the gate opens what was sealed to it.
use spa_device.Prelude.{
  ℕ, suc, ◌+◌, ◌-◌, ◌≤◌, ◌≡◌, refl, ap, ◌∙◌, false, List, ◌∷◌, ◌++◌, length, length-append, take,
  take-append, drop-append, ltb, Option, none, some, Result, ok, err, bind-eq-ok, ok_or, map_err,
  arith,
}
use spa_device.Wire.{version, sig_len, Suite, fips, modern, to_byte, Authorization}
use spa_device.Wire.Reader.{get_range}
use spa_device.Wire.Decode.{decode}
use spa_device.Crypto.{
  aead_tag_len, crypto, AgreementAlg, agreement_alg, aead_alg, eph_pub_len, Primitives, Agreement,
  aead_seal, aead_open,
}
use spa_device.Crypto.Gate.{GateKeypair, get_from, checked_sub, gate_keys, open_packet}
use spa_device.Crypto.Client.{client_keys, seal_envelope}
use spa_device.Crypto.Laws.{LawfulPrimitives, LawfulAgreement, public_len, IsGateKey, DrawsKeys}

pub ok_or-eq-ok {ℓ} : {A E : Type ℓ} (e : E) (o : Option A) {a : A} → ok_or e o ≡ ok a → o ≡ some a
ok_or-eq-ok e none h = cc
ok_or-eq-ok e (some b) h = cc

pub map_err-eq-ok {ℓ} :
    {A E F : Type ℓ} (f : F) (r : Result A E) {a : A} → map_err f r ≡ ok a → r ≡ ok a
map_err-eq-ok f (ok b) h = cc
map_err-eq-ok f (err e) h = cc

-- A packet is a header of two bytes and a public key, and what follows it.
module _ (v b : ℕ) (public rest : List ℕ) (n : ℕ) (h : length public ≡ n) where
  header_range : get_range (v ∷ b ∷ (public ++ rest)) 2 (2 + n) ≡ some public
  unfolding get_range
  header_range =
      let short : 2 + n - 2 ≡ length public = omega arith in
      ground (
        arith,
        length-append public rest,
        take-append public rest,
        ap (λ (k : ℕ). take k (public ++ rest)) short,
      )

  header_from : get_from (v ∷ b ∷ (public ++ rest)) (2 + n) ≡ some rest
  unfolding get_from
  header_from =
      let e : 2 + n ≡ suc (suc (length public)) = omega arith in
      rw e (ground (arith, length-append public rest, drop-append public rest))

  header_take : take (2 + n) (v ∷ b ∷ (public ++ rest)) ≡ v ∷ b ∷ public
  header_take =
      let e : 2 + n ≡ suc (suc (length public)) = omega arith in
      rw e (ap (λ l. v ∷ b ∷ l) (take-append public rest))

long_enough : (a b : ℕ) → b ≤ a → ltb a b ≡ false
long_enough a b h = ground arith

checked_sub-some : (a b : ℕ) → b ≤ a → checked_sub a b ≡ some (a - b)
unfolding checked_sub
checked_sub-some a b h = ground arith

pub eph_pub_len-public_len : (suite : Suite) → public_len (agreement_alg suite) ≡ eph_pub_len suite
eph_pub_len-public_len fips = refl
eph_pub_len-public_len modern = refl

module _ {P : Type 0} ⦃dh : Agreement P⦄ ⦃aws : Primitives⦄ where
  -- The parts of an envelope.
  pub record Sealed (gate_public : List ℕ) (suite : Suite) (drawn : AgreementAlg → Option P)
      (plaintext packet : List ℕ) : Type 0 where
    pub ephemeral : P
    pub eph_pub : List ℕ
    pub keys : List ℕ × List ℕ
    pub ciphertext : List ℕ
    pub generated : drawn (agreement_alg suite) ≡ some ephemeral
    pub public_eq : dh.compute_public_key ephemeral ≡ some eph_pub
    pub keys_eq : client_keys ephemeral suite gate_public eph_pub ≡ some keys
    pub sealed :
        aead_seal suite keys.0 keys.1 (version ∷ to_byte suite ∷ eph_pub) plaintext
        ≡ some ciphertext
    pub packet_eq : packet ≡ version ∷ to_byte suite ∷ (eph_pub ++ ciphertext)

  pub seal_envelope_inv :
      (gate_public : List ℕ) (suite : Suite) (drawn : AgreementAlg → Option P)
      (plaintext packet : List ℕ)
      → seal_envelope gate_public suite drawn plaintext ≡ ok packet
      → Sealed gate_public suite drawn plaintext packet
  unfolding seal_envelope
  seal_envelope_inv gate_public suite drawn plaintext packet h =
      let (ephemeral, e0, k0) = bind-eq-ok (ok_or crypto (drawn (agreement_alg suite))) _ h in
      let (eph_pub, e1, k1) = bind-eq-ok (ok_or crypto (dh.compute_public_key ephemeral)) _ k0 in
      let (keys, e2, k2) =
        bind-eq-ok (ok_or crypto (client_keys ephemeral suite gate_public eph_pub)) _ k1 in
      let (ciphertext, e3, k3) = bind-eq-ok (ok_or crypto _) _ k2 in
      record {
        ephemeral = ephemeral;
        eph_pub = eph_pub;
        keys = keys;
        ciphertext = ciphertext;
        generated = ok_or-eq-ok _ _ e0;
        public_eq = ok_or-eq-ok _ _ e1;
        keys_eq = ok_or-eq-ok _ _ e2;
        sealed = ok_or-eq-ok _ _ e3;
        packet_eq = cc k3;
      }

  -- The checks of `open` on an envelope, up to the decryption.
  open_sealed :
      (suite : Suite) (private : P) (public eph_pub ciphertext plaintext : List ℕ)
      (keys : List ℕ × List ℕ) (a : Authorization)
      → length eph_pub ≡ eph_pub_len suite
      → aead_tag_len ≤ length ciphertext
      → gate_keys private suite eph_pub ≡ some keys
      → aead_open suite keys.0 keys.1 (version ∷ to_byte suite ∷ eph_pub) ciphertext
        ≡ some plaintext
      → decode plaintext ≡ ok a
      → sig_len ≤ length plaintext
      → open_packet
          (record { suite = suite; private = private; public = public })
          (version ∷ to_byte suite ∷ (eph_pub ++ ciphertext))
        ≡ ok (record { auth = a; signing_bytes = take (length plaintext - sig_len) plaintext })
  unfolding open_packet
  open_sealed fips private public eph_pub ciphertext plaintext keys a size tag k o d len = simp (
    header_range version 1 eph_pub ciphertext 65 size,
    header_from version 1 eph_pub ciphertext 65 size,
    header_take version 1 eph_pub ciphertext 65 size,
    long_enough _ _ tag,
    k,
    o,
    d,
    checked_sub-some _ _ len,
  )
  open_sealed modern private public eph_pub ciphertext plaintext keys a size tag k o d len = simp (
    header_range version 2 eph_pub ciphertext 32 size,
    header_from version 2 eph_pub ciphertext 32 size,
    header_take version 2 eph_pub ciphertext 32 size,
    long_enough _ _ tag,
    k,
    o,
    d,
    checked_sub-some _ _ len,
  )

  -- The header and the nonce agree on both sides, so the gate recovers what was sealed.
  module _ (lawful : LawfulPrimitives aws) (agrees : LawfulAgreement dh) where
    sealed_tag :
        (suite : Suite) (shared nonce header plain sealed : List ℕ)
        → aead_seal suite shared nonce header plain ≡ some sealed
        → aead_tag_len ≤ length sealed
    unfolding aead_seal
    sealed_tag suite shared nonce header plain sealed h =
        omega (arith, lawful.length-seal (aead_alg suite) shared nonce header plain sealed h)

    sealed_opens :
        (suite : Suite) (shared nonce header plain sealed : List ℕ)
        → aead_seal suite shared nonce header plain ≡ some sealed
        → aead_open suite shared nonce header sealed ≡ some plain
    unfolding aead_seal aead_open
    sealed_opens suite shared nonce header plain sealed h =
        lawful.open-seal (aead_alg suite) shared nonce header plain sealed h

    same_keys :
        (suite : Suite) (private ephemeral : P) (public eph_pub : List ℕ)
        → dh.algorithm private ≡ agreement_alg suite
        → dh.algorithm ephemeral ≡ agreement_alg suite
        → dh.compute_public_key private ≡ some public
        → dh.compute_public_key ephemeral ≡ some eph_pub
        → gate_keys private suite eph_pub ≡ client_keys ephemeral suite public eph_pub
    same_keys suite private ephemeral public eph_pub alg alg' made made' = rw (
      agrees.agree_comm (agreement_alg suite) private ephemeral public eph_pub alg alg' made made',
      gate_keys,
    )

    -- A gate opens every envelope that was sealed to its public key for its suite, if an
    -- authorization was sealed.
    pub open-seal_envelope :
        (gate : GateKeypair P) (drawn : AgreementAlg → Option P) (plaintext packet : List ℕ)
        (a : Authorization)
        → IsGateKey gate
        → DrawsKeys drawn
        → decode plaintext ≡ ok a
        → sig_len ≤ length plaintext
        → seal_envelope gate.public gate.suite drawn plaintext ≡ ok packet
        → open_packet gate packet
          ≡ ok (record { auth = a; signing_bytes = take (length plaintext - sig_len) plaintext })
    open-seal_envelope gate drawn plaintext packet a made draws d len h =
        let s = seal_envelope_inv gate.public gate.suite drawn plaintext packet h in
        let alg = draws (agreement_alg gate.suite) s.ephemeral s.generated in
        let size : length s.eph_pub ≡ eph_pub_len gate.suite =
          agrees.length-public s.ephemeral s.eph_pub s.public_eq
          ∙ ap public_len alg
          ∙ eph_pub_len-public_len gate.suite in
        let tag = sealed_tag gate.suite s.keys.0 s.keys.1 _ plaintext s.ciphertext s.sealed in
        let shared =
          same_keys gate.suite gate.private s.ephemeral gate.public s.eph_pub made.algorithm alg
            made.public s.public_eq
          ∙ s.keys_eq in
        rw s.packet_eq (
          open_sealed gate.suite gate.private gate.public s.eph_pub s.ciphertext plaintext s.keys a
            size tag shared
            (sealed_opens gate.suite s.keys.0 s.keys.1 _ plaintext s.ciphertext s.sealed) d len)
