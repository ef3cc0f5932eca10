-- ===== src/Wire/Canonical.antt =====
-- What `decode` of spa-common/src/lib.rs accepts: the inversion of each of its parsers.
use mathlib.Core.Path.{subst₂}
use spa_device.Prelude.{
  ℕ, ◌^◌, ◌<◌, not, false, List, [], ◌∷◌, ◌==◌, ◌≡◌, refl, ap, sym, ◌∙◌, subst, length, All, Result,
  ok, ◌>>=◌, bind-eq-ok, if-eq-ok, arith,
}
use spa_device.Prelude.Bytes.{IsByte, to_be_bytes}
use spa_device.Wire.{
  version, nonce_len, gate_id_len, thumbprint_len, sig_len, Authorization, IsTyped, bad_count,
  WireError, encode,
}
use spa_device.Wire.Decode.{decode}
use spa_device.Wire.Stream.{split, byte, timestamp, ports_from, body, finish, decode-body}
use spa_device.Wire.RoundTrip.{layout, encode-eq-layout}
use spa_device.Wire.Took.{Took, split_inv, Parsed, byte_inv, timestamp_inv, PortsTook, ports_inv}

-- What the body took off the front of `s` is the encoding of what it returns.
record BodyTook (s : List ℕ) (a : Authorization) (rest : List ℕ) : Type 0 where
  front : s ≡ layout a rest
  typed : IsTyped a
  good : bad_count (length a.ports) ≡ false

-- One step of a successful chain of reads, with what it took.
module _ {B Q : Type 0} {b : B} (s : List ℕ) (h : All IsByte s) where
  split_step :
      (n : ℕ) (f : List ℕ × List ℕ → Result B WireError)
      → (split n s >>= f) ≡ ok b
      → ((x s' : List ℕ) → Took s x s' n → f (x, s') ≡ ok b → Q)
      → Q
  split_step n f e k =
      let (p, read, next) = bind-eq-ok (split n s) f e in
      k p.0 p.1 (split_inv n s p.0 p.1 h read) next

  byte_step :
      (f : ℕ × List ℕ → Result B WireError)
      → (byte s >>= f) ≡ ok b
      → ((v : ℕ) (s' : List ℕ) → Parsed s (λ v. v ∷ []) 256 v s' → f (v, s') ≡ ok b → Q)
      → Q
  byte_step f e k =
      let (p, read, next) = bind-eq-ok (byte s) f e in k p.0 p.1 (byte_inv s p.0 p.1 h read) next

  timestamp_step :
      (f : ℕ × List ℕ → Result B WireError)
      → (timestamp s >>= f) ≡ ok b
      → ((v : ℕ) (s' : List ℕ) → Parsed s (to_be_bytes 8) (256 ^ 8) v s' → f (v, s') ≡ ok b → Q)
      → Q
  timestamp_step f e k =
      let (p, read, next) = bind-eq-ok (timestamp s) f e in
      k p.0 p.1 (timestamp_inv s p.0 p.1 h read) next

  ports_step :
      (n : ℕ) (f : List ℕ × List ℕ → Result B WireError)
      → (ports_from n [] s >>= f) ≡ ok b
      → ((ports s' : List ℕ) → PortsTook n s [] ports s' → f (ports, s') ≡ ok b → Q)
      → Q
  ports_step n f e k =
      let (p, read, next) = bind-eq-ok (ports_from n [] s) f e in
      k p.0 p.1 (ports_inv n s [] p.0 p.1 h read) next

body_inv :
    (s : List ℕ) (a : Authorization) (rest : List ℕ)
    → All IsByte s
    → body s ≡ ok (a, rest)
    → BodyTook s a rest
unfolding body
body_inv s a rest h e = byte_step s h _ e λ v s0 t0 e0.
    let (is_version, e0) = if-eq-ok (not (v == version)) _ _ e0 in
    split_step s0 t0.rest nonce_len _ e0 λ nonce s1 t1 e1.
      timestamp_step s1 t1.rest _ e1 λ t s2 t2 e2.
        split_step s2 t2.rest gate_id_len _ e2 λ gate_id s3 t3 e3.
          split_step s3 t3.rest thumbprint_len _ e3 λ key s4 t4 e4.
            byte_step s4 t4.rest _ e4 λ count s5 t5 e5.
              let (good, e5) = if-eq-ok (bad_count count) _ _ e5 in
              ports_step s5 t5.rest count _ e5 λ ports s6 t6 e6.
                split_step s6 t6.rest sig_len _ e6 λ sig s7 t7 e7.
                  let is_one : v ≡ version = ground arith in
                  let got : Authorization = record {
                    nonce = nonce;
                    timestamp_nanos = t;
                    gate_id = gate_id;
                    key_thumbprint = key;
                    ports = ports;
                    signature = sig;
                  } in
                  let parsed : BodyTook s got s7 = record {
                    front = rw (
                      t0.front,
                      is_one,
                      t1.front,
                      t2.front,
                      t3.front,
                      t4.front,
                      t5.front,
                      t6.front,
                      t7.front,
                      ← t6.count,
                      t6.whole,
                    );
                    typed = record {
                      nonce = t1.array;
                      timestamp = t2.range;
                      gate_id = t3.array;
                      key_thumbprint = t4.array;
                      ports = rw t6.whole t6.range;
                      signature = t7.array;
                    };
                    good = rw (t6.whole, t6.count) good;
                  } in
                  subst (λ (p : Authorization × List ℕ). BodyTook s p.0 p.1) (cc e7) parsed

nothing_left : (s : List ℕ) → not (length s == 0) ≡ false → s ≡ []
nothing_left [] h = refl
nothing_left (x ∷ s) h = ground arith

-- What `decode` accepts is the encoding of what it returns, byte for byte, and each field has its
-- Rust type.
pub encode-decode :
    (buf : List ℕ) (a : Authorization)
    → All IsByte buf
    → length buf < 2 ^ 64
    → decode buf ≡ ok a
    → IsTyped a × (encode a ≡ ok buf)
encode-decode buf a bytes small h =
    let (p, parsed, done) = bind-eq-ok (body buf) finish (sym (decode-body buf small) ∙ h) in
    let last = if-eq-ok (not (length p.1 == 0)) _ (ok p.0) done in
    let took = body_inv buf p.0 p.1 bytes parsed in
    let same : p.0 ≡ a = cc last.1 in
    let whole : BodyTook buf a [] = subst₂ (BodyTook buf) same (nothing_left p.1 last.0) took in
    (whole.typed, encode-eq-layout a whole.good ∙ ap ok (sym whole.front))
