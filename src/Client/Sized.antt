-- ===== src/Client/Sized.antt =====
-- What the files of spa-client/src/lib.rs give is well sized.
use spa_device.Prelude.{
  ℕ, ◌+◌, ◌*◌, ◌-◌, ◌≤◌, ◌≡◌, refl, subst, not, ◌==◌, ◌&&◌, List, [], ◌∷◌, length, Option, none,
  some, Result, ok, ok_or, leb, ℕ_eq, List_eq, bind_step, if_step, Bool-cases, inl, inr, arith,
}
use spa_device.Wire.{gate_id_len, thumbprint_len}
use spa_device.Client.File.{
  Error, format, parse_suite, Fields, read_kv, get_field, u16_max, parse_digits, parse_uint,
  parse_u16, port_field, Hex, hexd, arr,
}
use spa_device.Client.Knocker.{
  Enroller, suite_field, gate_pubkey_hex, gate_id_hex, token_id_hex, secret_hex, from_files,
}

ok_inj : {A : Type 0} {a b : A} → ◌≡◌ {A = Result A Error} (ok a) (ok b) → a ≡ b
ok_inj h = cc h

parse_digits-le :
    (limit n : ℕ) (s : List ℕ) {p : ℕ} → n ≤ limit → parse_digits limit n s ≡ some p → p ≤ limit
unfolding parse_digits
parse_digits-le limit n [] le h = ground (arith, h)
parse_digits-le limit n (c ∷ cs) le h =
    elim (Bool-cases (leb 48 c && (leb c 57 && leb (n * 10 + (c - 48)) limit))) [
      | inr bad ↦ cc (rw bad at h)
      | inl digit ↦
          parse_digits-le limit (n * 10 + (c - 48)) cs (ground (arith, digit)) (rw digit at h)
    ]

pub parse_uint-le : (limit : ℕ) (s : List ℕ) {p : ℕ} → parse_uint limit s ≡ some p → p ≤ limit
unfolding parse_uint
parse_uint-le limit [] h = cc h
parse_uint-le limit (c ∷ []) h = parse_digits-le limit 0 (c ∷ []) (omega arith) h
parse_uint-le limit (c ∷ d ∷ cs) h = elim (Bool-cases (c == b'+')) [
  | inl plus ↦ parse_digits-le limit 0 (d ∷ cs) (omega arith) (rw plus at h)
  | inr digit ↦ parse_digits-le limit 0 (c ∷ d ∷ cs) (omega arith) (rw digit at h)
]

pub parse_u16-le : (s : List ℕ) {p : ℕ} → parse_u16 s ≡ some p → p ≤ u16_max
unfolding parse_u16
parse_u16-le s h = parse_uint-le u16_max s h

some_of_ok : {A : Type 0} (o : Option A) {a : A} → ok_or format o ≡ ok a → o ≡ some a
some_of_ok none h = cc h
some_of_ok (some b) h = cc h

port_field-le : (kv : Fields) {p : ℕ} → port_field kv ≡ ok p → p ≤ u16_max
unfolding port_field
port_field-le kv h =
    bind_step (get_field kv (b'p' ∷ b'o' ∷ b'r' ∷ b't' ∷ [])) _ h
      λ s e h. parse_u16-le s (some_of_ok (parse_u16 s) h)

-- Ids of their lengths, and one port that is a `u16`.
pub record IsSized (e : Enroller × List ℕ) : Type 0 where
  pub gate_id : length e.0.gate_id ≡ gate_id_len
  pub token_id : length e.0.token_id ≡ thumbprint_len
  pub port : ℕ
  pub port_eq : e.1 ≡ port ∷ []
  pub port_le : port ≤ u16_max

module _ ⦃hex : Hex⦄ where
  arr-length : (n : ℕ) (s : List ℕ) {b : List ℕ} → arr n s ≡ ok b → length b ≡ n
  unfolding arr
  arr-length n s h =
      bind_step (hexd s) _ h
        λ b e h. if_step (not (length b == n)) _ _ h λ same h. ground (arith, same, h)

  -- An enroller that is read from its files has a gate id and a token id of their lengths, and asks
  -- for one port, which is a `u16`.
  pub from_files-IsSized :
      (knock_file enroll_file : Option (List ℕ)) (e : Enroller × List ℕ)
      → from_files knock_file enroll_file ≡ ok e
      → IsSized e
  unfolding from_files
  from_files-IsSized knock_file enroll_file e h = bind_step (read_kv knock_file) _ h λ g e0 h.
      bind_step (read_kv enroll_file) _ h λ t e1 h.
        bind_step (get_field g suite_field) _ h λ name e2 h.
          bind_step (parse_suite name) _ h λ suite e3 h.
            bind_step (get_field g gate_pubkey_hex) _ h λ pubkey_hex e4 h.
              bind_step (hexd pubkey_hex) _ h λ gate_pubkey e5 h.
                bind_step (get_field g gate_id_hex) _ h λ id_hex e6 h.
                  bind_step (arr gate_id_len id_hex) _ h λ gate_id e7 h.
                    bind_step (get_field t token_id_hex) _ h λ token_hex e8 h.
                      bind_step (arr thumbprint_len token_hex) _ h λ token_id e9 h.
                        bind_step (get_field t secret_hex) _ h λ digits e10 h.
                          bind_step (hexd digits) _ h λ secret e11 h.
                            bind_step (port_field g) _ h λ port e12 h.
                              subst IsSized (ok_inj h) (record {
                                gate_id = arr-length gate_id_len id_hex e7;
                                token_id = arr-length thumbprint_len token_hex e9;
                                port = port;
                                port_eq = refl;
                                port_le = port_field-le g e12;
                              })
