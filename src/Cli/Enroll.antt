-- ===== src/Cli/Enroll.antt =====
-- `enroll_knock` of spa-client/src/main.rs after `keygen` and `gen_token`: the gate whose key was
-- generated opens the datagram.
use spa_device.Prelude.{
  ℕ, ◌≡◌, ◌∙◌, ap, sym, subst, true, List, [], ◌∷◌, ◌++◌, Option, some, ok, bind_step, ℕ_eq,
  List_eq, arith,
}
use spa_device.Prelude.Bytes.{IsArray}
use spa_device.Prelude.Text.{HexEncode, codes}
use spa_device.Wire.{thumbprint_len}
use spa_device.Core.{Opened}
use spa_device.Crypto.{Primitives, Agreement, Signing, mac_sha512, verify_mac}
use spa_device.Crypto.Gate.{open_packet}
use spa_device.Crypto.Client.{KnockRequest, Pkcs8, seal_psk}
use spa_device.Crypto.Laws.{LawfulPrimitives, LawfulAgreement, DrawsKeys}
use spa_device.Crypto.Knock.{signed, open-seal_psk}
use spa_device.Files.{FileSystem, LawfulFiles}
use spa_device.Client.File.{Hex}
use spa_device.Client.Knocker.{Enroller, Answers, from_crypto, new_request, send_udp, enroll_knock}
use spa_device.Cli.Main.{enroll_command}
use spa_device.Cli.Keys.{gen_token}
use spa_device.Cli.Reread.{LawfulHex}
use spa_device.Cli.Keygen.{IsReread, from_crypto-ok}
use spa_device.Cli.Knock.{FillsNonce, new_request-IsRequest}
use spa_device.Cli.Token.{gen_token-from_files}

module _ {P : Type 0} ⦃dh : Agreement P⦄ ⦃aws : Primitives⦄ where
  -- What `enroll_knock` sends is the sealed request.
  enroll_knock-sealed :
      (k : Enroller) (a : Answers P) (ports packet : List ℕ)
      → enroll_knock k a ports ≡ ok packet
      → (req : KnockRequest) × (new_request a k.gate_id ports ≡ ok req)
        × (seal_psk k.gate_pubkey k.suite k.secret k.token_id req a.drawn ≡ ok packet)
  unfolding enroll_knock send_udp
  enroll_knock-sealed k a ports packet h = bind_step (new_request a k.gate_id ports) _ h λ req e1 h.
      bind_step (from_crypto (seal_psk k.gate_pubkey k.suite k.secret k.token_id req a.drawn)) _ h
        λ p sealed h.
          let sent : p ≡ packet = ground (arith, h) in
          (
            req,
            e1,
            from_crypto-ok (seal_psk k.gate_pubkey k.suite k.secret k.token_id req a.drawn) sealed
                ∙ ap ok sent,
          )

module _ ⦃encoder : HexEncode⦄ ⦃decoder : Hex⦄ (hex : LawfulHex encoder decoder) {E D : Type 0}
    ⦃signing : Signing E D⦄ ⦃aws : Primitives⦄ (lawful : LawfulPrimitives aws) ⦃pkcs8 : Pkcs8 E D⦄
    (P : Type 0) ⦃dh : Agreement P⦄ (agrees : LawfulAgreement dh) {F : Type 0} ⦃fs : FileSystem F⦄
    (files : LawfulFiles fs) where
  -- After `keygen` and `gen_token`, a datagram that `enroll-knock` sends with the two files is opened
  -- by the gate that was generated: it asks for the default port, for this gate, under the token that
  -- was drawn, and its authenticator verifies under the secret that was drawn; the random generator
  -- filling them and the nonce.
  pub enroll_command-opens :
      (kp tp suite_name : List ℕ) (fill : ℕ → Option (List ℕ)) (e : Option E) (d : Option D)
      (id_bytes token_bytes secret_bytes : Option (List ℕ)) (f g : F)
      (made : IsReread hex P kp suite_name fill e d id_bytes f) (answers : Answers P)
      (packet : List ℕ)
      → ((id : List ℕ) → token_bytes ≡ some id → IsArray thumbprint_len id)
      → ((s : List ℕ) → secret_bytes ≡ some s → IsArray 32 s)
      → DrawsKeys answers.drawn
      → FillsNonce answers
      → gen_token tp token_bytes secret_bytes f ≡ (ok tt, g)
      → enroll_command
          (fs.read g (kp ++ codes ".knock"))
          (fs.read g (tp ++ codes ".enroll"))
          answers
        ≡ ok packet
      → (o : Opened) × (secret : List ℕ) × (open_packet made.gate.0 packet ≡ ok o)
        × (o.auth.ports ≡ 9999 ∷ [])
        × (o.auth.gate_id ≡ made.gate_id)
        × (token_bytes ≡ some o.auth.key_thumbprint)
        × (secret_bytes ≡ some secret)
        × (verify_mac secret o.signing_bytes o.auth.signature ≡ true)
  unfolding enroll_command
  enroll_command-opens kp tp suite_name fill e d id_bytes token_bytes secret_bytes f g made answers
        packet token_filled secret_filled draws filled generated h =
      let (token_id, secret, token, hidden, reread) =
        gen_token-from_files hex P files kp tp suite_name fill e d id_bytes token_bytes secret_bytes
          f g made token_filled secret_filled generated in
      let k : Enroller = record {
        suite = made.suite;
        gate_pubkey = made.gate.0.public;
        gate_id = made.gate_id;
        token_id = token_id;
        secret = secret;
      } in
      let sent : enroll_knock k answers (9999 ∷ []) ≡ ok packet =
        rw (enroll_command, reread) at h in
      let (req, requested, sealed) = enroll_knock-sealed k answers (9999 ∷ []) packet sent in
      let (r, ports, id) =
        new_request-IsRequest answers made.gate_id (9999 ∷ []) req filled made.id_array
          (omega arith, tt) requested in
      let (region, s, opens, verified) =
        open-seal_psk lawful agrees made.gate.0 answers.drawn req secret token_id packet
          made.gate_key draws r (token_filled token_id token)
          (subst (λ c. seal_psk made.gate.0.public c secret token_id req answers.drawn ≡ ok packet)
            (sym made.gate_suite) sealed) in
      (
        record { auth = signed req token_id (mac_sha512 secret region); signing_bytes = region },
        secret,
        opens,
        ports,
        id,
        token,
        hidden,
        verified,
      )
