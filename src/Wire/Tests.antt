-- ===== src/Wire/Tests.antt =====
-- The tests of spa-common/src/lib.rs, and the theorems at their sample.
use spa_device.Prelude.{ℕ, ◌≡◌, refl, List, [], ◌∷◌, take, drop, replicate, ok, err, arith}
use spa_device.Wire.{
  nonce_len, gate_id_len, thumbprint_len, sig_len, fips, modern, to_byte, from_byte, bad_suite,
  bad_version, bad_port_count, too_short, Authorization, IsTyped, signing_bytes, encode,
}
use spa_device.Wire.Reader.{take as read, u8}
use spa_device.Wire.Decode.{decode}
use spa_device.Wire.RoundTrip.{layout, encode-eq-layout, decode-encode}
use spa_device.Wire.Canonical.{encode-decode}
use spa_device.Wire.Reject.{decode_truncated}

abbrev sample : Authorization
sample = record {
  nonce = replicate nonce_len 7;
  timestamp_nanos = 0x0102_0304_0506_0708;
  gate_id = replicate gate_id_len 9;
  key_thumbprint = replicate thumbprint_len 0xab;
  ports = 22 ∷ 8443 ∷ [];
  signature = replicate sig_len 0xcd;
}

sample-IsTyped : IsTyped sample
sample-IsTyped = omega arith

abbrev sample_bytes : List ℕ
sample_bytes = layout sample []

sample-encode : encode sample ≡ ok sample_bytes
sample-encode = encode-eq-layout sample refl

bad_version_rejected : decode (2 ∷ drop 1 sample_bytes) ≡ err (bad_version 2)
unfolding decode u8 read
bad_version_rejected = refl

zero_ports_rejected : encode (record sample { ports = [] }) ≡ err (bad_port_count 0)
unfolding encode signing_bytes
zero_ports_rejected = refl

suite_round_trips :
    (from_byte (to_byte fips) ≡ ok fips)
    × (from_byte (to_byte modern) ≡ ok modern)
    × (from_byte 0xff ≡ err (bad_suite 0xff))
suite_round_trips = (refl, refl, refl)

sample-decode : decode sample_bytes ≡ ok sample
sample-decode = decode-encode sample sample_bytes sample-IsTyped sample-encode

encode-decode_example : IsTyped sample × (encode sample ≡ ok sample_bytes)
encode-decode_example = encode-decode sample_bytes sample (omega arith) (omega arith) sample-decode

decode_truncated_example : decode (take 100 sample_bytes) ≡ err too_short
decode_truncated_example =
    decode_truncated sample (take 100 sample_bytes) 0xcd (drop 101 sample_bytes) sample-IsTyped
      sample-encode

decode-encode_example : decode sample_bytes ≡ ok sample
decode-encode_example = decode-encode sample sample_bytes sample-IsTyped sample-encode
