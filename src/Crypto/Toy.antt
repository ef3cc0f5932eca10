-- ===== src/Crypto/Toy.antt =====
-- A provider in the place of aws-lc-rs that has its laws, and keys and a request under it.
use spa_device.Prelude.{
  ℕ, zero, suc, ◌%◌, ◌^◌, subst, ◌+◌, ◌-◌, ◌*◌, ◌≤◌, ◌<◌, ◌≡◌, ◌↔◌, refl, ap, sym, ◌∙◌, Bool, true,
  false, ◌&&◌, List, [], ◌∷◌, ◌++◌, Option, none, some, Result, ok, err, replicate, length,
  length-append, length-replicate, length-take, take-append, ltb, if◌then◌else◌, All, Bool-cases,
  min, arith,
}
use spa_device.Prelude as Prelude
use spa_device.Prelude.Bytes.{IsByte, IsArray, from_be_bytes}
use spa_device.Wire.{modern, thumbprint_len, sig_len, signing_bytes, encode}
use spa_device.Wire.Reader.{get_range, checked_add, u8, take, array, u64, u16}
use spa_device.Wire.Decode.{decode, read_ports}
use spa_device.Core.{Opened}
use spa_device.Crypto.{
  aead_tag_len, AgreementAlg, x25519, Primitives, Agreement, Signing, derive, aead_seal, mac_sha512,
  aead_open,
}
use spa_device.Crypto.Gate.{GateKeypair, get_from, checked_sub, open_packet}
use spa_device.Crypto.Client.{KnockRequest, authorization, seal_envelope, seal_psk}
use spa_device.Crypto.Client.{ed25519, ClientKey, from_key_pairs, sign_message, seal}
use spa_device.Crypto.{thumbprint_of}
use spa_device.Crypto.Laws.{
  LawfulPrimitives, LawfulAgreement, LawfulSigning, public_len, IsGateKey, DrawsKeys,
}
use spa_device.Crypto.Knock.{IsRequest, signed}

abbrev pub all_bytes : List ℕ → Bool
all_bytes [] = true
all_bytes (b ∷ bs) = ltb b 256 && all_bytes bs

all_bytes-All : (bs : List ℕ) → all_bytes bs ≡ true → All IsByte bs
all_bytes-All [] h = tt
all_bytes-All (b ∷ bs) h = (ground arith, all_bytes-All bs (ground arith))

pub All-replicate : (n b : ℕ) → b < 256 → All IsByte (replicate n b)
All-replicate zero b h = tt
All-replicate (suc n) b h = (h, All-replicate n b h)

abbrev pub checked : List ℕ → List ℕ → Option (List ℕ)
checked bytes answer = if all_bytes bytes then some answer else none

abbrev pub toy_open : List ℕ → Option (List ℕ)
toy_open sealed =
    let plain = Prelude.take (length sealed - aead_tag_len) sealed in checked plain plain

instance abbrev pub toy : Primitives
toy = record {
  extract = λ salt secret. secret;
  expand = λ prk info n. some (replicate n 0);
  seal_in_place = λ alg key nonce aad plain. checked plain (plain ++ replicate aead_tag_len 0);
  open_in_place = λ alg key nonce aad sealed. toy_open sealed;
  verify = λ alg key message mac. true;
  hmac_sign = λ key message. replicate sig_len 0;
  hmac_verify = λ key message mac. true;
  sha256 = λ message. replicate thumbprint_len 0;
}

checked-some :
    (bytes answer : List ℕ) {out : List ℕ}
    → checked bytes answer ≡ some out
    → (all_bytes bytes ≡ true) × (answer ≡ out)
checked-some bytes answer h = (ground arith, ground arith)

toy_front :
    (plain : List ℕ)
    → Prelude.take
        (length (plain ++ replicate aead_tag_len 0) - aead_tag_len)
        (plain ++ replicate aead_tag_len 0)
      ≡ plain
toy_front plain =
    let size : length (plain ++ replicate aead_tag_len 0) - aead_tag_len ≡ length plain =
      omega (arith, length-append plain (replicate aead_tag_len 0)) in
    rw size (take-append plain (replicate aead_tag_len 0))

pub toy_lawful : LawfulPrimitives toy
toy_lawful = record {
  open-seal = λ alg key nonce aad plain sealed h.
      let (good, same) = checked-some plain _ h in
      ap toy_open (sym same) ∙ rw (toy_front plain, good) refl;
  length-seal = λ alg key nonce aad plain sealed h.
      omega
        (arith, ap (length {0}) (checked-some plain _ h).1, length-append plain (replicate 16 0));
  sha256_array =
      λ message. record { size = refl; bytes = all_bytes-All (replicate thumbprint_len 0) refl };
  open_bytes = λ alg key nonce aad sealed plain h.
      let (good, same) = checked-some (Prelude.take (length sealed - aead_tag_len) sealed) _ h in
      (
        all_bytes-All plain (ap all_bytes (sym same) ∙ good),
        omega (arith, ap (length {0}) same, length-take (length sealed - aead_tag_len) sealed),
      );
  hmac_array =
      λ key message. record { size = refl; bytes = all_bytes-All (replicate sig_len 0) refl };
  hmac_verifies = λ key message. refl;
}

-- A private key that is nothing but its algorithm.
instance abbrev pub toy_agreement : Agreement AgreementAlg
toy_agreement = record {
  algorithm = λ p. p;
  from_private_key = λ alg raw. some alg;
  compute_public_key = λ p. some (replicate (public_len p) 0);
  agree = λ p alg public. some [];
}

pub some-injective : {a b : List ℕ} → some a ≡ some b → a ≡ b
some-injective h = cc h

pub toy_agrees : LawfulAgreement toy_agreement
toy_agrees = record {
  agree_comm = λ alg a b public_a public_b ha hb pa pb. refl;
  algorithm-from_private_key = λ alg raw p h. cc h;
  length-public =
      λ a public h. ap (length {0}) (sym (some-injective h)) ∙ length-replicate (public_len a) 0;
}

instance abbrev pub toy_signing : Signing ℕ ℕ
toy_signing = record {
  ecdsa_sign = λ kp seed message. some (replicate sig_len (seed % 256));
  ed25519_sign = λ kp message. replicate sig_len 7;
  ecdsa_public = λ kp. replicate 65 kp;
  ed25519_public = λ kp. replicate 32 (kp % 256);
}

pub toy_signs : LawfulSigning toy toy_signing
toy_signs = record {
  ecdsa_verifies = λ kp seed message mac h. refl;
  ed25519_verifies = λ kp message. refl;
  ecdsa_bytes = λ kp seed message mac h.
      subst (All IsByte) (some-injective h) (All-replicate sig_len (seed % 256) (omega arith));
  ed25519_bytes = λ kp message. all_bytes-All (replicate sig_len 7) refl;
}

abbrev pub request : KnockRequest
request = record {
  gate_id = replicate 16 1;
  ports = 22 ∷ 443 ∷ [];
  nonce = replicate 16 2;
  timestamp_nanos = 1000;
}

pub bytes_array : (n b : ℕ) → b < 256 → IsArray n (replicate n b)
bytes_array n b h = record { size = length-replicate n b; bytes = All-replicate n b h }

pub request-IsRequest : IsRequest request
request-IsRequest = record {
  nonce = bytes_array 16 2 (omega arith);
  timestamp = omega arith;
  gate_id = bytes_array 16 1 (omega arith);
  ports = (omega arith, (omega arith, tt));
}

abbrev pub drawn : AgreementAlg → Option AgreementAlg
drawn alg = some alg

pub drawn-DrawsKeys : DrawsKeys drawn
drawn-DrawsKeys alg p h = cc h

abbrev pub toy_gate : GateKeypair AgreementAlg
toy_gate = record { suite = modern; private = x25519; public = replicate 32 0 }

pub toy_gate-IsGateKey : IsGateKey toy_gate
toy_gate-IsGateKey = record { algorithm = refl; public = refl }

abbrev pub payload : {E : Type 0} → Result (List ℕ) E → List ℕ
payload (ok bytes) = bytes
payload (err e) = []

abbrev pub token_id : List ℕ
token_id = replicate 32 5

abbrev pub psk_packet : List ℕ
psk_packet = payload (seal_psk toy_gate.public modern (9 ∷ []) token_id request drawn)

pub psk_sealed : seal_psk toy_gate.public modern (9 ∷ []) token_id request drawn ≡ ok psk_packet
unfolding seal_psk signing_bytes encode seal_envelope derive aead_seal mac_sha512
psk_sealed = refl

abbrev pub psk_region : List ℕ
psk_region = payload (signing_bytes (authorization request token_id))

abbrev pub psk_opened : Opened
psk_opened = record {
  auth = signed request token_id (replicate sig_len 0);
  signing_bytes = psk_region;
}

pub psk_opens : open_packet toy_gate psk_packet ≡ ok psk_opened
unfolding open_packet seal_psk signing_bytes encode seal_envelope derive aead_seal mac_sha512
    get_range get_from aead_open decode u8 take array u64 read_ports u16 checked_sub from_be_bytes
    checked_add
psk_opens = refl

abbrev pub toy_client : ClientKey ℕ ℕ
toy_client = record {
  suite = modern;
  signer = ed25519 4;
  public = replicate 32 4;
  thumbprint = replicate 32 0;
}

pub toy_client_built : from_key_pairs {E = ℕ} {D = ℕ} modern none (some 4) ≡ ok toy_client
unfolding from_key_pairs thumbprint_of
toy_client_built = refl

abbrev pub signed_packet : List ℕ
signed_packet = payload (seal toy_client toy_gate.public request 3 drawn)

pub signed_sealed : seal toy_client toy_gate.public request 3 drawn ≡ ok signed_packet
unfolding seal sign_message signing_bytes encode seal_envelope derive aead_seal
signed_sealed = refl
