-- ===== src/Crypto/Tests.antt =====
-- Knocks under a toy provider, and the theorems at them.
use spa_device.Prelude.{
  ℕ, ◌^◌, ◌+◌, ◌≤◌, ◌<◌, ◌≡◌, refl, true, List, [], ◌∷◌, none, some, ok, replicate, length, arith,
}
use spa_device.Wire.{version, modern, sig_len, signing_bytes, encode}
use spa_device.Crypto.{aead_tag_len, derive, aead_seal, mac_sha512, verify_mac, verify_signature}
use spa_device.Crypto.Gate.{byte_at, open_packet}
use spa_device.Crypto.Client.{authorization, seal_envelope, seal_psk}
use spa_device.Crypto.Knock.{signed, open-seal_psk, open-seal}
use spa_device.Crypto.Open.{open_packet-ok}
use spa_device.Crypto.Size.{HasKnockSize, seal-HasKnockSize}
use spa_device.Crypto.Toy.{
  toy, toy_lawful, toy_agreement, toy_agrees, toy_signing, toy_signs, request, bytes_array,
  request-IsRequest, drawn, drawn-DrawsKeys, toy_gate, toy_gate-IsGateKey, token_id, psk_packet,
  psk_sealed, psk_region, psk_opened, psk_opens, toy_client, toy_client_built, signed_packet,
  signed_sealed,
}

open-seal_psk_example :
    (region : List ℕ) × (signing_bytes (authorization request token_id) ≡ ok region)
    × (open_packet toy_gate psk_packet
        ≡ ok (record {
          auth = signed request token_id (mac_sha512 (9 ∷ []) region);
          signing_bytes = region;
        }))
    × (verify_mac (9 ∷ []) region (mac_sha512 (9 ∷ []) region) ≡ true)
open-seal_psk_example =
    open-seal_psk toy_lawful toy_agrees toy_gate drawn request (9 ∷ []) token_id psk_packet
      toy_gate-IsGateKey drawn-DrawsKeys request-IsRequest (bytes_array 32 5 (omega arith))
      psk_sealed

open-seal_example :
    (region mac : List ℕ) × (signing_bytes (authorization request toy_client.thumbprint)
      ≡ ok region)
    × (open_packet toy_gate signed_packet
        ≡ ok (record { auth = signed request toy_client.thumbprint mac; signing_bytes = region }))
    × (verify_signature modern toy_client.public region mac ≡ true)
open-seal_example =
    open-seal toy_lawful toy_signs toy_agrees toy_gate drawn request 3 modern none (some 4)
      toy_client signed_packet toy_gate-IsGateKey drawn-DrawsKeys request-IsRequest toy_client_built
      refl signed_sealed

seal-HasKnockSize_example : HasKnockSize modern 2 signed_packet
seal-HasKnockSize_example =
    seal-HasKnockSize toy_lawful toy_agrees toy_signs modern none (some 4) toy_client
      toy_gate.public request 3 drawn signed_packet drawn-DrawsKeys request-IsRequest
      toy_client_built signed_sealed

psk_packet_small : length psk_packet < 2 ^ 64
unfolding seal_psk signing_bytes encode seal_envelope derive aead_seal mac_sha512
psk_packet_small = omega arith

open_packet-ok_example :
    (byte_at psk_packet 0 ≡ ok version)
    × (byte_at psk_packet 1 ≡ ok 2)
    × (2 + 32 + aead_tag_len ≤ length psk_packet)
    × (signing_bytes (signed request token_id (replicate sig_len 0)) ≡ ok psk_region)
open_packet-ok_example =
    open_packet-ok toy_lawful toy_gate psk_packet psk_opened psk_packet_small psk_opens
