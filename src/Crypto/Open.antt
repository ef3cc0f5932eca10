-- ===== src/Crypto/Open.antt =====
-- `GateKeypair` of spa-crypto/src/lib.rs on any packet, and the keys that it is made of.
use spa_device.Prelude.{
  ℕ, zero, suc, ◌+◌, ◌^◌, ◌≤◌, ◌<◌, ◌≡◌, refl, ap, sym, ◌∙◌, subst, not, ==_iff, true, List, ◌++◌,
  length, length-append, take, take-append, length-drop, ltb, ◌==◌, Option, some, ok, bind_step,
  if_step, ok_or, map_err, All, arith,
}
use spa_device.Prelude.Bytes.{IsByte}
use spa_device.Wire.{
  version, sig_len, Suite, fips, modern, to_byte, from_byte, Authorization, signing_bytes, encode,
}
use spa_device.Wire.Reader.{get_range}
use spa_device.Wire.Decode.{decode}
use spa_device.Wire.Canonical.{encode-decode}
use spa_device.Core.{Opened, open_error}
use spa_device.Crypto.{
  aead_tag_len, CryptoError, agreement_alg, aead_alg, eph_pub_len, Primitives, Agreement, aead_open,
}
use spa_device.Crypto.Gate.{
  GateKeypair, byte_at, get_from, same_suite, checked_sub, from_raw_private, generate_rounds,
  generate_raw, gate_keys, open_packet,
}
use spa_device.Crypto.Laws.{LawfulPrimitives, LawfulAgreement, IsGateKey}
use spa_device.Crypto.Envelope.{ok_or-eq-ok, map_err-eq-ok}

get_from-some :
    (buf : List ℕ) (from : ℕ) (rest : List ℕ)
    → get_from buf from ≡ some rest
    → length buf ≡ from + length rest
unfolding get_from
get_from-some buf from rest h = ground (arith, length-drop from buf)

-- The region that is checked is what is left of the plaintext without its signature.
encode-region :
    (a : Authorization) (plaintext : List ℕ) (n : ℕ)
    → length a.signature ≡ sig_len
    → encode a ≡ ok plaintext
    → checked_sub (length plaintext) sig_len ≡ some n
    → signing_bytes a ≡ ok (take n plaintext)
unfolding encode checked_sub
encode-region a plaintext n size e h = bind_step (signing_bytes a) _ e λ region s k.
    let whole : region ++ a.signature ≡ plaintext = cc k in
    let rest : n ≡ length region =
      ground (arith, ap (length {0}) whole, length-append region a.signature) in
    s ∙ ap ok (rw (rest, ← whole) (sym (take-append region a.signature)))

from_byte-eq-ok : (b : ℕ) (s : Suite) → from_byte b ≡ ok s → b ≡ to_byte s
from_byte-eq-ok b fips h = ground (arith, ==_iff b 1, ==_iff b 2)
from_byte-eq-ok b modern h = ground (arith, ==_iff b 1, ==_iff b 2)

same_suite-eq : (a b : Suite) → same_suite a b ≡ true → a ≡ b
same_suite-eq fips fips h = refl
same_suite-eq modern modern h = refl
same_suite-eq fips modern h = cc
same_suite-eq modern fips h = cc

module _ ⦃aws : Primitives⦄ (lawful : LawfulPrimitives aws) where
  plain_bytes :
      (suite : Suite) (shared nonce header sealed plain : List ℕ)
      → aead_open suite shared nonce header sealed ≡ some plain
      → All IsByte plain × (length plain ≤ length sealed)
  unfolding aead_open
  plain_bytes suite = lawful.open_bytes (aead_alg suite)

module _ {P : Type 0} ⦃dh : Agreement P⦄ ⦃aws : Primitives⦄ (lawful : LawfulPrimitives aws) where
  -- A packet of less than 2 ^ 64 bytes that the gate opens starts with the protocol's version and
  -- the gate's suite, is long enough for a key and a tag, and what its signature is checked against
  -- is the signing region of the authorization that was decoded.
  pub open_packet-ok :
      (gate : GateKeypair P) (packet : List ℕ) (o : Opened)
      → length packet < 2 ^ 64
      → open_packet gate packet ≡ ok o
      → (byte_at packet 0 ≡ ok version)
        × (byte_at packet 1 ≡ ok (to_byte gate.suite))
        × (2 + eph_pub_len gate.suite + aead_tag_len ≤ length packet)
        × (signing_bytes o.auth ≡ ok o.signing_bytes)
  unfolding open_packet
  open_packet-ok gate packet o small h = bind_step (byte_at packet 0) _ h λ v e0 h.
      if_step (not (v == version)) _ _ h λ right h. bind_step (byte_at packet 1) _ h λ b e1 h.
        bind_step (map_err open_error (from_byte b)) _ h λ suite e2 h.
          if_step (not (same_suite suite gate.suite)) _ _ h λ same h.
            bind_step (ok_or open_error (get_range packet 2 (2 + eph_pub_len suite))) _ h
              λ eph e3 h.
                bind_step (ok_or open_error (get_from packet (2 + eph_pub_len suite))) _ h
                  λ ciphertext e4 h. if_step (ltb (length ciphertext) aead_tag_len) _ _ h λ tag h.
                    bind_step (ok_or open_error (gate_keys gate.private suite eph)) _ h λ keys e5 h.
                      bind_step (ok_or open_error (aead_open _ _ _ _ _)) _ h λ plaintext e6 h.
                        bind_step (map_err open_error (decode plaintext)) _ h λ a e7 h.
                          bind_step (ok_or open_error (checked_sub (length plaintext) sig_len)) _ h
                            λ n e8 h.
                              let for_suite : suite ≡ gate.suite =
                                same_suite-eq suite gate.suite (ground arith) in
                              let size = get_from-some packet _ ciphertext (ok_or-eq-ok _ _ e4) in
                              let plain =
                                plain_bytes lawful suite _ _ _ ciphertext plaintext
                                  (ok_or-eq-ok _ _ e6) in
                              let typed =
                                encode-decode plaintext a plain.0 (omega (arith, plain.1, size))
                                  (map_err-eq-ok _ _ e7) in
                              let region =
                                encode-region a plaintext n typed.0.signature.size typed.1
                                  (ok_or-eq-ok _ _ e8) in
                              (
                                e0 ∙ ap ok ((==_iff v version).0 (ground arith)),
                                e1
                                    ∙ ap ok (from_byte-eq-ok b suite (map_err-eq-ok _ _ e2))
                                    ∙ ap (λ c. ok (to_byte c)) for_suite,
                                subst (λ c. 2 + eph_pub_len c + aead_tag_len ≤ length packet)
                                    for_suite (ground (arith, size)),
                                subst (λ (p : Opened). signing_bytes p.auth ≡ ok p.signing_bytes)
                                    (cc h) region,
                              )

module _ {P : Type 0} ⦃dh : Agreement P⦄ (agrees : LawfulAgreement dh) where
  -- A key pair that is read from a raw private key is a key pair of the suite asked for.
  pub from_raw_private-IsGateKey :
      (suite : Suite) (raw : List ℕ) (gate : GateKeypair P)
      → from_raw_private suite raw ≡ ok gate
      → IsGateKey gate × (gate.suite ≡ suite)
  unfolding from_raw_private
  from_raw_private-IsGateKey suite raw gate h =
      bind_step (ok_or CryptoError.key (dh.from_private_key (agreement_alg suite) raw)) _ h
        λ private e h.
          bind_step (ok_or CryptoError.key (dh.compute_public_key private)) _ h λ public e' h.
            subst (λ (g : GateKeypair P). IsGateKey g × (g.suite ≡ suite)) (cc h)
              (
                record {
                  algorithm = agrees.algorithm-from_private_key _ raw private (ok_or-eq-ok _ _ e);
                  public = ok_or-eq-ok _ _ e';
                },
                refl,
              )

module _ {P : Type 0} ⦃dh : Agreement P⦄ where
  generate_rounds-reload :
      (n : ℕ) (suite : Suite) (fill : ℕ → Option (List ℕ)) (gate : GateKeypair P) (raw : List ℕ)
      → generate_rounds n suite fill ≡ ok (gate, raw)
      → from_raw_private suite raw ≡ ok gate
  unfolding generate_rounds
  generate_rounds-reload zero suite fill gate raw h = cc h
  generate_rounds-reload (suc n) suite fill gate raw h =
      ground (arith, generate_rounds-reload n suite fill gate raw)

  -- The raw key that `generate_raw` returns for persistence loads the same key pair again.
  pub generate_raw-reload :
      (suite : Suite) (fill : ℕ → Option (List ℕ)) (gate : GateKeypair P) (raw : List ℕ)
      → generate_raw suite fill ≡ ok (gate, raw)
      → from_raw_private suite raw ≡ ok gate
  unfolding generate_raw
  generate_raw-reload suite fill = generate_rounds-reload 16 suite fill
