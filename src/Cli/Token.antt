-- ===== src/Cli/Token.antt =====
-- `gen_token` of spa-client/src/main.rs makes a token that `from_files` of spa-client/src/lib.rs reads
-- back, together with the knock file of `keygen`.
use spa_device.Prelude.{
  ℕ, ◌≡◌, refl, ap, sym, ◌∙◌, false, List, [], ◌∷◌, ◌++◌, Option, some, ok, ok_or, Bool-cases, inl,
  inr, ℕ_eq, List_eq, list_eq, list_eq_iff, All, arith,
}
use spa_device.Prelude.Bytes.{IsByte, IsArray}
use spa_device.Prelude.Text.{HexEncode, codes}
use spa_device.Prelude.Assoc.{lookup, insert, remove}
use spa_device.Wire.{Suite, gate_id_len, thumbprint_len}
use spa_device.Crypto.{Primitives, Agreement, Signing}
use spa_device.Crypto.Client.{Pkcs8}
use spa_device.Crypto.Envelope.{ok_or-eq-ok}
use spa_device.Files.{
  FileSystem, LawfulFiles, lift, write_file-ok, io_step, write_step, read-write_file,
}
use spa_device.Client.File.{io, format, parse_suite, get_field, parse_u16, port_field, Hex}
use spa_device.Client.Knocker.{from_files}
use spa_device.Cli.Keys.{knock_text, token_toml, enroll_text, gen_token}
use spa_device.Cli.Reread.{LawfulHex, read_kv-knock_text, read_kv-enroll_text}
use spa_device.Cli.Keygen.{IsReread, parse_suite-plain, hexd-encode, arr-encode}

-- The last character of a text that is not empty.
abbrev last : List ℕ → ℕ
last [] = 0
last (c ∷ []) = c
last (c ∷ d ∷ cs) = last (d ∷ cs)

last-append : (s : List ℕ) (c : ℕ) (cs : List ℕ) → last (s ++ c ∷ cs) ≡ last (c ∷ cs)
last-append [] c cs = refl
last-append (x ∷ []) c cs = refl
last-append (x ∷ y ∷ s) c cs = last-append (y ∷ s) c cs

other_ends : (s t : List ℕ) → last s ≡ b'l' → last t ≡ b'k' → list_eq s t ≡ false
other_ends s t h k = elim (Bool-cases (list_eq s t)) [
  | inr other ↦ other
  | inl same ↦
      let ends : b'l' ≡ b'k' = sym h ∙ ap last ((list_eq_iff s t).0 same) ∙ k in
      ground (arith, ends)
]

module _ ⦃encoder : HexEncode⦄ ⦃decoder : Hex⦄ (hex : LawfulHex encoder decoder) where
  from_files-texts :
      (suite_name gate_public gate_id doc token_id secret : List ℕ) (suite : Suite)
      → parse_suite suite_name ≡ ok suite
      → All IsByte gate_public
      → IsArray gate_id_len gate_id
      → IsArray thumbprint_len token_id
      → IsArray 32 secret
      → from_files
          (some (knock_text suite_name gate_public gate_id doc))
          (some (enroll_text token_id secret))
        ≡ ok (
          record {
            suite = suite;
            gate_pubkey = gate_public;
            gate_id = gate_id;
            token_id = token_id;
            secret = secret;
          },
          9999 ∷ [],
        )
  unfolding from_files get_field lookup insert remove port_field parse_u16
  from_files-texts suite_name gate_public gate_id doc token_id secret suite named public id token
        hidden =
      rw
        (
          read_kv-knock_text hex suite_name gate_public gate_id doc
              (parse_suite-plain suite_name suite named),
          read_kv-enroll_text hex token_id secret,
          named,
          hexd-encode hex gate_public public,
          arr-encode hex gate_id_len gate_id id,
          arr-encode hex thumbprint_len token_id token,
          hexd-encode hex secret hidden.bytes,
        )
        refl

  module _ {E D : Type 0} ⦃signing : Signing E D⦄ ⦃aws : Primitives⦄ ⦃pkcs8 : Pkcs8 E D⦄
      (P : Type 0) ⦃dh : Agreement P⦄ {F : Type 0} ⦃fs : FileSystem F⦄
      (files : LawfulFiles fs) where
    -- After `keygen`, a `gen_token` that succeeds leaves the knock file alone, and `from_files` makes
    -- of it and of the enrollment file an enroller for the gate that was generated, with the token and
    -- the secret that were drawn, and the default port; the random generator filling the two.
    pub gen_token-from_files :
        (kp tp suite_name : List ℕ) (fill : ℕ → Option (List ℕ)) (e : Option E) (d : Option D)
        (id_bytes token_bytes secret_bytes : Option (List ℕ)) (f g : F)
        (made : IsReread hex P kp suite_name fill e d id_bytes f)
        → ((id : List ℕ) → token_bytes ≡ some id → IsArray thumbprint_len id)
        → ((s : List ℕ) → secret_bytes ≡ some s → IsArray 32 s)
        → gen_token tp token_bytes secret_bytes f ≡ (ok tt, g)
        → (token_id : List ℕ) × (secret : List ℕ) × (token_bytes ≡ some token_id)
          × (secret_bytes ≡ some secret)
          × (from_files (fs.read g (kp ++ codes ".knock")) (fs.read g (tp ++ codes ".enroll"))
              ≡ ok (
                record {
                  suite = made.suite;
                  gate_pubkey = made.gate.0.public;
                  gate_id = made.gate_id;
                  token_id = token_id;
                  secret = secret;
                },
                9999 ∷ [],
              ))
    unfolding gen_token
    gen_token-from_files kp tp suite_name fill e d id_bytes token_bytes secret_bytes f g made
          token_filled secret_filled h =
        io_step (lift (ok_or format token_bytes)) _ f h λ token_id e1 h.
          io_step (lift (ok_or format secret_bytes)) _ f h λ secret e2 h.
            write_step io (tp ++ codes ".token.toml") (token_toml token_id secret) _ f h λ f' e3 h.
              let token = ok_or-eq-ok format token_bytes e1 in
              let hidden = ok_or-eq-ok format secret_bytes e2 in
              let e4 = write_file-ok io _ _ f' g h in
              let kept : fs.read g (kp ++ codes ".knock")
                  ≡ some (knock_text suite_name made.gate.0.public made.gate_id made.doc) =
                rw
                  (
                    files.read-write f' g _ _ e4 (kp ++ codes ".knock"),
                    other_ends (tp ++ codes ".enroll") (kp ++ codes ".knock")
                        (last-append tp b'.' (codes "enroll"))
                        (last-append kp b'.' (codes "knock")),
                    files.read-write f f' _ _ e3 (kp ++ codes ".knock"),
                    other_ends (tp ++ codes ".token.toml") (kp ++ codes ".knock")
                        (last-append tp b'.' (codes "token.toml"))
                        (last-append kp b'.' (codes "knock")),
                  )
                  made.written in
              let enrolls = read-write_file files (tp ++ codes ".enroll") _ f' g e4 in
              (
                token_id,
                secret,
                token,
                hidden,
                rw (kept, enrolls)
                    (from_files-texts suite_name made.gate.0.public made.gate_id made.doc token_id
                      secret made.suite made.named made.public_bytes made.id_array
                      (token_filled token_id token) (secret_filled secret hidden)),
              )
