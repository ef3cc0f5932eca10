-- ===== src/Crypto/Gate.antt =====
-- `GateKeypair` of spa-crypto/src/lib.rs: the gate's static key, and the `Crypto` port on it.
use spa_device.Prelude.{
  ℕ, zero, suc, ◌+◌, ◌-◌, Bool, not, List, [], ◌∷◌, length, take, drop, ltb, ◌==◌, if◌then◌else◌,
  Option, none, some, Result, ok, err, ◌>>=◌, ok_or, map_err,
}
use spa_device.Wire.{version, sig_len, Suite, fips, modern, from_byte}
use spa_device.Wire.Reader.{get_range}
use spa_device.Wire.Decode.{decode}
use spa_device.Core.{Opened, OpenError, open_error, Crypto}
use spa_device.Crypto.{
  aead_tag_len, CryptoError, key, AgreementAlg, agreement_alg, eph_pub_len, Primitives, Agreement,
  derive, aead_open, verify_signature, verify_mac,
}

pub record GateKeypair (P : Type 0) : Type 0 where
  pub suite : Suite
  pub private : P
  pub public : List ℕ

-- `*packet.get(i)`, or the error.
abbrev pub byte_at : List ℕ → ℕ → Result ℕ OpenError
byte_at [] i = err open_error
byte_at (b ∷ bs) zero = ok b
byte_at (b ∷ bs) (suc i) = byte_at bs i

-- `packet.get(from..)`.
unfoldable pub get_from : List ℕ → ℕ → Option (List ℕ)
get_from buf from = if ltb (length buf) from then none else some (drop from buf)

abbrev pub same_suite : Suite → Suite → Bool
same_suite fips fips = Bool.true
same_suite modern modern = Bool.true
same_suite _ _ = Bool.false

-- `usize::checked_sub`.
unfoldable pub checked_sub : ℕ → ℕ → Option ℕ
checked_sub a b = if ltb a b then none else some (a - b)

module _ {P : Type 0} ⦃dh : Agreement P⦄ where
  abbrev pub with_public : Suite → P → Result (GateKeypair P) CryptoError
  with_public suite private = do
    public ← ok_or key (dh.compute_public_key private)
    ok (record { suite = suite; private = private; public = public })

  -- `drawn` is the key that the library generates for an algorithm.
  unfoldable pub generate : Suite → (AgreementAlg → Option P) → Result (GateKeypair P) CryptoError
  generate suite drawn = do
    private ← ok_or key (drawn (agreement_alg suite))
    with_public suite private

  unfoldable pub from_raw_private : Suite → List ℕ → Result (GateKeypair P) CryptoError
  from_raw_private suite raw = do
    private ← ok_or key (dh.from_private_key (agreement_alg suite) raw)
    with_public suite private

  -- The rounds left; `fill` is what the random generator answers in each of them.
  unfoldable pub generate_rounds :
      ℕ → Suite → (ℕ → Option (List ℕ)) → Result (GateKeypair P × List ℕ) CryptoError
  generate_rounds zero suite fill = err key
  generate_rounds (suc n) suite fill = elim (fill n) [
    | none ↦ err key
    | some raw ↦ elim (from_raw_private suite raw) [
      | ok kp ↦ ok (kp, raw)
      | err e ↦ generate_rounds n suite fill
    ]
  ]

  unfoldable pub generate_raw :
      Suite → (ℕ → Option (List ℕ)) → Result (GateKeypair P × List ℕ) CryptoError
  unfolding generate_rounds
  generate_raw suite fill = generate_rounds 16 suite fill

  module _ ⦃aws : Primitives⦄ where
    -- `agree(…, |secret| derive(…))`
    abbrev pub gate_keys : P → Suite → List ℕ → Option (List ℕ × List ℕ)
    gate_keys private suite eph_pub = elim (dh.agree private (agreement_alg suite) eph_pub) [
      | none ↦ none
      | some secret ↦ derive suite secret eph_pub
    ]

    unfoldable pub open_packet : GateKeypair P → List ℕ → Result Opened OpenError
    open_packet gate packet = do
      v ← byte_at packet 0
      if not (v == version) then err open_error else do
        b ← byte_at packet 1
        suite ← map_err open_error (from_byte b)
        if not (same_suite suite gate.suite) then err open_error else do
          let eph_end = 2 + eph_pub_len suite
          eph_pub ← ok_or open_error (get_range packet 2 eph_end)
          ciphertext ← ok_or open_error (get_from packet eph_end)
          if ltb (length ciphertext) aead_tag_len then err open_error else do
            let header = take eph_end packet
            keys ← ok_or open_error (gate_keys gate.private suite eph_pub)
            plaintext ← ok_or open_error (aead_open suite keys.0 keys.1 header ciphertext)
            auth ← map_err open_error (decode plaintext)
            signing_len ← ok_or open_error (checked_sub (length plaintext) sig_len)
            ok (record { auth = auth; signing_bytes = take signing_len plaintext })

    instance abbrev pub gate_crypto : Crypto (GateKeypair P)
    gate_crypto = record {
      open_packet = open_packet;
      verify = λ gate. verify_signature;
      verify_mac = λ gate. verify_mac;
    }
