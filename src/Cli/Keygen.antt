-- ===== src/Cli/Keygen.antt =====
-- `keygen` of spa-client/src/main.rs makes a gate's key and a client's key that fit: the client that
-- `from_knock_file` loads is the one that was made, for the gate that was made.
use spa_device.Prelude.{
  ℕ, ◌≡◌, refl, ap, ◌∙◌, true, ◌==◌, List, [], ◌∷◌, ◌++◌, length, Option, some, Result, ok, err,
  ok_or, Bool-cases, inl, inr, ℕ_eq, List_eq, list_eq, list_eq_iff, All, arith,
}
use spa_device.Prelude.Bytes.{IsByte, IsArray}
use spa_device.Prelude.Text.{HexEncode, codes}
use spa_device.Prelude.Assoc.{lookup, insert, remove}
use spa_device.Wire.{Suite, gate_id_len}
use spa_device.Crypto.{CryptoError, Primitives, Agreement, Signing}
use spa_device.Crypto.Gate.{GateKeypair, generate_raw}
use spa_device.Crypto.Client.{ClientKey, Pkcs8, from_key_pairs, from_pkcs8, to_pkcs8}
use spa_device.Crypto.Envelope.{ok_or-eq-ok}
use spa_device.Crypto.Laws.{LawfulAgreement, LawfulPkcs8, MakesBytes, IsGateKey}
use spa_device.Crypto.Open.{from_raw_private-IsGateKey, generate_raw-reload}
use spa_device.Crypto.Export.{from_pkcs8-to_pkcs8, to_pkcs8-IsByte}
use spa_device.Files.{
  FileSystem, LawfulFiles, lift, write_file-ok, io_step, write_step, read-write_file,
}
use spa_device.Client.File.{
  io, format, parse_suite, get_field, parse_u16, port_field, Hex, hexd, arr,
}
use spa_device.Client.Knocker.{from_crypto, new_knocker, from_knock_file}
use spa_device.Client.Lines.{all_plain}
use spa_device.Cli.Keys.{knock_text, gate_toml, keygen}
use spa_device.Cli.Reread.{LawfulHex, read_kv-knock_text}

pub parse_suite-plain : (s : List ℕ) (suite : Suite) → parse_suite s ≡ ok suite → all_plain s ≡ true
unfolding parse_suite
parse_suite-plain s suite h = elim (Bool-cases (list_eq s (codes "fips"))) [
  | inl fips ↦ rw ((list_eq_iff s (codes "fips")).0 fips) refl
  | inr other ↦ elim (Bool-cases (list_eq s (codes "modern"))) [
    | inl modern ↦ rw ((list_eq_iff s (codes "modern")).0 modern) refl
    | inr bad ↦ cc (rw (other, bad) at h)
  ]
]

pub from_crypto-ok :
    {A : Type 0} (r : Result A CryptoError) {a : A} → from_crypto r ≡ ok a → r ≡ ok a
from_crypto-ok (ok b) h = cc h
from_crypto-ok (err e) h = cc h

module _ ⦃encoder : HexEncode⦄ ⦃decoder : Hex⦄ (hex : LawfulHex encoder decoder) where
  pub hexd-encode : (bytes : List ℕ) → All IsByte bytes → hexd (encoder.encode_hex bytes) ≡ ok bytes
  unfolding hexd
  hexd-encode bytes h = ap (ok_or format) (hex.decode-encode bytes h)

  pub arr-encode :
      (n : ℕ) (bytes : List ℕ) → IsArray n bytes → arr n (encoder.encode_hex bytes) ≡ ok bytes
  unfolding arr
  arr-encode n bytes h =
      let whole : (length bytes == n) ≡ true = ground (arith, h.size) in
      rw (hexd-encode bytes h.bytes, whole) refl

  module _ {E D : Type 0} ⦃signing : Signing E D⦄ ⦃aws : Primitives⦄ ⦃pkcs8 : Pkcs8 E D⦄ where
    from_knock_file-knock_text :
        (suite_name gate_public gate_id doc : List ℕ) (suite : Suite) (client : ClientKey E D)
        → parse_suite suite_name ≡ ok suite
        → All IsByte gate_public
        → IsArray gate_id_len gate_id
        → All IsByte doc
        → from_pkcs8 suite doc ≡ ok client
        → from_knock_file (some (knock_text suite_name gate_public gate_id doc))
          ≡ ok (record { gate_pubkey = gate_public; gate_id = gate_id; client = client }, 9999 ∷ [])
    unfolding from_knock_file get_field lookup insert remove port_field parse_u16 new_knocker
    from_knock_file-knock_text suite_name gate_public gate_id doc suite client named public id
          doc_bytes loaded =
        rw
          (
            read_kv-knock_text hex suite_name gate_public gate_id doc
                (parse_suite-plain suite_name suite named),
            named,
            hexd-encode gate_public public,
            arr-encode gate_id_len gate_id id,
            hexd-encode doc doc_bytes,
            loaded,
          )
          refl

    module _ (P : Type 0) ⦃dh : Agreement P⦄ {F : Type 0} ⦃fs : FileSystem F⦄ where
      -- What `keygen` made, and what the knock file gives back.
      pub record IsReread (prefix suite_name : List ℕ) (fill : ℕ → Option (List ℕ)) (e : Option E)
          (d : Option D) (gate_id_bytes : Option (List ℕ)) (g : F) : Type 0 where
        pub suite : Suite
        pub gate : GateKeypair P × List ℕ
        pub client : ClientKey E D
        pub gate_id : List ℕ
        pub named : parse_suite suite_name ≡ ok suite
        pub gate_made : generate_raw suite fill ≡ ok gate
        pub client_made : from_key_pairs suite e d ≡ ok client
        pub id_drawn : gate_id_bytes ≡ some gate_id
        pub gate_key : IsGateKey gate.0
        pub gate_suite : gate.0.suite ≡ suite
        pub public_bytes : All IsByte gate.0.public
        pub id_array : IsArray gate_id_len gate_id
        pub doc : List ℕ
        pub written :
            fs.read g (prefix ++ codes ".knock")
            ≡ some (knock_text suite_name gate.0.public gate_id doc)
        pub reread :
            from_knock_file (fs.read g (prefix ++ codes ".knock"))
            ≡ ok (
              record { gate_pubkey = gate.0.public; gate_id = gate_id; client = client },
              9999 ∷ [],
            )

      -- When `keygen` succeeds, the knock file that it wrote is loaded as a knocker of the client that
      -- was generated, for the public key and the id of the gate that was generated, and the default
      -- port; the random generator filling the id.
      pub keygen-IsReread :
          (agrees : LawfulAgreement dh) (lawful : LawfulPkcs8 pkcs8)
          (makes : MakesBytes dh pkcs8 signing) (files : LawfulFiles fs)
          (prefix suite_name : List ℕ) (fill : ℕ → Option (List ℕ)) (e : Option E) (d : Option D)
          (gate_id_bytes : Option (List ℕ)) (f g : F)
          → ((id : List ℕ) → gate_id_bytes ≡ some id → IsArray gate_id_len id)
          → keygen P prefix suite_name fill e d gate_id_bytes f ≡ (ok tt, g)
          → IsReread prefix suite_name fill e d gate_id_bytes g
      unfolding keygen
      keygen-IsReread agrees lawful makes files prefix suite_name fill e d gate_id_bytes f g filled
            h =
          io_step (lift (parse_suite suite_name)) _ f h λ suite named h.
            io_step (lift (from_crypto (generate_raw {P = P} suite fill))) _ f h λ gate e1 h.
              io_step (lift (from_crypto (from_key_pairs suite e d))) _ f h λ client e2 h.
                io_step (lift (from_crypto (to_pkcs8 client))) _ f h λ doc e3 h.
                  io_step (lift (ok_or format gate_id_bytes)) _ f h λ gate_id e4 h.
                    write_step io (prefix ++ codes ".gate.toml")
                      (gate_toml suite_name gate.1 gate_id client) _ f h
                      λ f' e5 h.
                        let made = from_crypto-ok (generate_raw {P = P} suite fill) e1 in
                        let built = from_crypto-ok (from_key_pairs suite e d) e2 in
                        let out = from_crypto-ok (to_pkcs8 client) e3 in
                        let id = ok_or-eq-ok format gate_id_bytes e4 in
                        let key =
                          from_raw_private-IsGateKey agrees suite gate.1 gate.0
                            (generate_raw-reload suite fill gate.0 gate.1 made) in
                        let public = makes.public_bytes gate.0.private gate.0.public key.0.public in
                        let written =
                          read-write_file files (prefix ++ codes ".knock")
                            (knock_text suite_name gate.0.public gate_id doc) f' g
                            (write_file-ok io _ _ f' g h) in
                        record {
                          suite = suite;
                          gate = gate;
                          client = client;
                          gate_id = gate_id;
                          named = named;
                          gate_made = made;
                          client_made = built;
                          id_drawn = id;
                          gate_key = key.0;
                          gate_suite = key.1;
                          public_bytes = public;
                          id_array = filled gate_id id;
                          doc = doc;
                          written = written;
                          reread =
                              ap from_knock_file written
                              ∙ from_knock_file-knock_text suite_name gate.0.public gate_id doc
                                  suite client named public (filled gate_id id)
                                  (to_pkcs8-IsByte makes client doc out)
                                  (from_pkcs8-to_pkcs8 lawful suite e d client built doc out);
                        }
