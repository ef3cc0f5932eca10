-- ===== src/Wire/RoundTrip.antt =====
-- `encode` and `decode` of spa-common/src/lib.rs are inverse to one another.
use spa_device.Prelude.{
  ℕ, zero, suc, ◌+◌, ◌*◌, ◌^◌, ◌≤◌, ◌<◌, ◌%◌, Bool, true, false, List, [], ◌∷◌, ◌++◌, ltb, ◌==◌,
  ◌≡◌, refl, ap, sym, ◌∙◌, subst, Bool-cases, inl, inr, if◌then◌else◌, length, length-append, drop,
  take-append, drop-append, append_assoc, append-nil, All, Result, ok, err, ◌>>=◌, arith,
}
use spa_device.Prelude as Prelude
use spa_device.Prelude.Bytes.{to_be_bytes, from-to_be_bytes, length-to_be_bytes}
use spa_device.Wire.{
  version, nonce_len, gate_id_len, thumbprint_len, sig_len, max_ports, bad_port_count,
  Authorization, IsTyped, bad_count, port_bytes, signing_bytes, encode,
}
use spa_device.Wire.Decode.{decode}
use spa_device.Wire.Stream.{split, byte, port, timestamp, ports_from, body, decode-body}

-- The encoding with what follows it, bracketed to the right.
abbrev pub layout : Authorization → List ℕ → List ℕ
layout a rest =
    version
    ∷ (a.nonce
        ++ (to_be_bytes 8 a.timestamp_nanos
            ++ (a.gate_id
                ++ (a.key_thumbprint
                    ++ (length a.ports ∷ (port_bytes a.ports ++ (a.signature ++ rest)))))))

pub split-append : (n : ℕ) (s rest : List ℕ) → length s ≡ n → split n (s ++ rest) ≡ ok (s, rest)
unfolding split
split-append n s rest h = ground (
  arith,
  length-append s rest,
  take-append s rest,
  drop-append s rest,
  ap (λ (k : ℕ). Prelude.take k (s ++ rest)) h,
  ap (λ (k : ℕ). drop k (s ++ rest)) h,
)

pub byte-cons : (b : ℕ) (s : List ℕ) → byte (b ∷ s) ≡ ok (b, s)
unfolding byte
byte-cons b s = rw (split-append 1 (b ∷ []) s refl)

timestamp-append :
    (t : ℕ) (rest : List ℕ) → t < 256 ^ 8 → timestamp (to_be_bytes 8 t ++ rest) ≡ ok (t, rest)
unfolding timestamp
timestamp-append t rest h =
    rw (split-append 8 (to_be_bytes 8 t) rest (length-to_be_bytes 8 t))
      (ap (λ (v : ℕ). ok (v, rest)) (from-to_be_bytes 8 t h))

port-append : (p : ℕ) (rest : List ℕ) → p < 256 ^ 2 → port (to_be_bytes 2 p ++ rest) ≡ ok (p, rest)
unfolding port
port-append p rest h =
    rw (split-append 2 (to_be_bytes 2 p) rest refl)
      (ap (λ (v : ℕ). ok (v, rest)) (from-to_be_bytes 2 p h))

ports_from-append :
    (done ports rest : List ℕ)
    → All (λ p. p < 256 ^ 2) ports
    → ports_from (length ports) done (port_bytes ports ++ rest) ≡ ok (done ++ ports, rest)
unfolding ports_from
ports_from-append done [] rest h = rw append-nil
ports_from-append done (p ∷ ps) rest h = rw (append_assoc (to_be_bytes 2 p) (port_bytes ps) rest) (
    rw (port-append p (port_bytes ps ++ rest) h.0)
      (ports_from-append (done ++ p ∷ []) ps rest h.1 ∙ rw append_assoc))

length-port_bytes : (ports : List ℕ) → length (port_bytes ports) ≡ 2 * length ports
length-port_bytes [] = refl
length-port_bytes (p ∷ ps) = omega (arith, length-port_bytes ps)

-- The body is read back, and what follows it is left.
pub body-layout :
    (a : Authorization) (rest : List ℕ)
    → IsTyped a
    → bad_count (length a.ports) ≡ false
    → body (layout a rest) ≡ ok (a, rest)
unfolding body
body-layout a rest t c = simp (
  byte-cons,
  split-append nonce_len a.nonce _ t.nonce.size,
  timestamp-append a.timestamp_nanos _ t.timestamp,
  split-append gate_id_len a.gate_id _ t.gate_id.size,
  split-append thumbprint_len a.key_thumbprint _ t.key_thumbprint.size,
  c,
  ports_from-append [] a.ports _ t.ports,
  split-append sig_len a.signature rest t.signature.size,
)

pub layout-append : (a : Authorization) (rest : List ℕ) → layout a [] ++ rest ≡ layout a rest
layout-append a rest = simp (append_assoc, append-nil)

pub length-layout :
    (a : Authorization) → IsTyped a → length (layout a []) ≡ 138 + 2 * length a.ports
length-layout a t = omega (
  arith,
  length-append {0},
  length-port_bytes a.ports,
  t.nonce.size,
  t.gate_id.size,
  t.key_thumbprint.size,
  t.signature.size,
)

pub count_bounds : (n : ℕ) → bad_count n ≡ false → (1 ≤ n) × (n ≤ max_ports)
count_bounds n h = ground arith

-- With a port count in range the encoding is the layout.
pub encode-eq-layout :
    (a : Authorization) → bad_count (length a.ports) ≡ false → encode a ≡ ok (layout a [])
unfolding encode signing_bytes
encode-eq-layout a good =
    let small : length a.ports % 2 ^ 8 ≡ length a.ports =
      omega (arith, count_bounds (length a.ports) good) in
    rw good (ap ok (simp (small, append_assoc, append-nil)))

pub encode-bad_count :
    (a : Authorization)
    → bad_count (length a.ports) ≡ true
    → encode a ≡ err (bad_port_count (length a.ports))
unfolding encode signing_bytes
encode-bad_count a bad = rw bad

-- A successful encoding is the layout, and its port count is in range.
pub encode-layout :
    (a : Authorization) (bytes : List ℕ)
    → encode a ≡ ok bytes
    → (bytes ≡ layout a []) × (bad_count (length a.ports) ≡ false)
encode-layout a bytes h = elim (Bool-cases (bad_count (length a.ports))) [
  | inl bad ↦ cc (encode-bad_count a bad)
  | inr good ↦ (cc (encode-eq-layout a good), good)
]

pub decode-layout :
    (a : Authorization)
    → IsTyped a
    → bad_count (length a.ports) ≡ false
    → decode (layout a []) ≡ ok a
decode-layout a t good =
    let small : length (layout a []) < 2 ^ 64 =
      omega (arith, length-layout a t, count_bounds (length a.ports) good) in
    decode-body (layout a []) small ∙ rw (body-layout a [] t good)

-- Every authorization whose fields have their Rust types, and that `encode` accepts, is what
-- `decode` makes of its encoding.
pub decode-encode :
    (a : Authorization) (bytes : List ℕ) → IsTyped a → encode a ≡ ok bytes → decode bytes ≡ ok a
decode-encode a bytes t h =
    let (shape, good) = encode-layout a bytes h in rw shape (decode-layout a t good)
