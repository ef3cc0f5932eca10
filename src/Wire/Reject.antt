-- ===== src/Wire/Reject.antt =====
-- What `decode` of spa-common/src/lib.rs does with an encoding that is cut short or runs on.
use spa_device.Prelude.{
  ℕ, zero, suc, ◌^◌, ◌≤◌, ◌<◌, Bool, not, true, false, List, [], ◌∷◌, ◌++◌, ◌==◌, ◌≡◌, refl, ap,
  ◌∙◌, if◌then◌else◌, length, length-append, take, drop, Result, ok, err, ◌>>=◌, arith,
}
use spa_device.Wire.{
  version, nonce_len, gate_id_len, thumbprint_len, sig_len, Authorization, IsTyped, bad_count,
  WireError, too_short, bad_version, bad_suite, bad_port_count, trailing_bytes, encode,
}
use spa_device.Wire.Decode.{decode}
use spa_device.Wire.Stream.{split, byte, port, timestamp, ports_from, body, decode-body}
use spa_device.Wire.RoundTrip.{
  layout-append, length-layout, count_bounds, encode-layout, body-layout,
}

-- With `more` behind its input a parser gives the same, and leaves `more`; only an input that was
-- too short may be read otherwise.
abbrev Extends :
    {A : Type 0} → List ℕ → Result (A × List ℕ) WireError → Result (A × List ℕ) WireError → Type 0
Extends more (ok (a, s)) y = y ≡ ok (a, s ++ more)
Extends more (err too_short) y = Unit
Extends more (err e) y = y ≡ err e

bind-Extends :
    {A B : Type 0} (more : List ℕ) (x y : Result (A × List ℕ) WireError)
    (f : A × List ℕ → Result (B × List ℕ) WireError)
    → Extends more x y
    → ((a : A) (s : List ℕ) → Extends more (f (a, s)) (f (a, s ++ more)))
    → Extends more (x >>= f) (y >>= f)
bind-Extends more (ok (a, s)) y f h k = rw h (k a s)
bind-Extends more (err too_short) y f h k = tt
bind-Extends more (err (bad_version v)) y f h k = rw h
bind-Extends more (err (bad_suite v)) y f h k = rw h
bind-Extends more (err (bad_port_count v)) y f h k = rw h
bind-Extends more (err trailing_bytes) y f h k = rw h

if-Extends :
    {B : Type 0} (more : List ℕ) (c : Bool) (x y z : Result (B × List ℕ) WireError)
    → Extends more z z
    → Extends more x y
    → Extends more (if c then z else x) (if c then z else y)
if-Extends more true x y z p q = p
if-Extends more false x y z p q = q

take-append_le : (n : ℕ) (s more : List ℕ) → n ≤ length s → take n (s ++ more) ≡ take n s
take-append_le zero s more h = refl
take-append_le (suc n) [] more h = absurd (omega arith)
take-append_le (suc n) (x ∷ s) more h = ap (λ l. x ∷ l) (take-append_le n s more (omega arith))

drop-append_le : (n : ℕ) (s more : List ℕ) → n ≤ length s → drop n (s ++ more) ≡ drop n s ++ more
drop-append_le zero s more h = refl
drop-append_le (suc n) [] more h = absurd (omega arith)
drop-append_le (suc n) (x ∷ s) more h = drop-append_le n s more (omega arith)

module _ (more : List ℕ) where
  split-Extends : (n : ℕ) (s : List ℕ) → Extends more (split n s) (split n (s ++ more))
  unfolding split
  split-Extends n s =
      ground (arith, length-append s more, take-append_le n s more, drop-append_le n s more)

  byte-Extends : (s : List ℕ) → Extends more (byte s) (byte (s ++ more))
  unfolding byte
  byte-Extends s = bind-Extends more _ _ _ (split-Extends 1 s) (λ b s'. refl)

  port-Extends : (s : List ℕ) → Extends more (port s) (port (s ++ more))
  unfolding port
  port-Extends s = bind-Extends more _ _ _ (split-Extends 2 s) (λ b s'. refl)

  timestamp-Extends : (s : List ℕ) → Extends more (timestamp s) (timestamp (s ++ more))
  unfolding timestamp
  timestamp-Extends s = bind-Extends more _ _ _ (split-Extends 8 s) (λ b s'. refl)

  ports_from-Extends :
      (n : ℕ) (done s : List ℕ) → Extends more (ports_from n done s) (ports_from n done (s ++ more))
  unfolding ports_from
  ports_from-Extends zero done s = refl
  ports_from-Extends (suc n) done s =
      bind-Extends more _ _ _ (port-Extends s) (λ p s'. ports_from-Extends n (done ++ p ∷ []) s')

  body-Extends : (s : List ℕ) → Extends more (body s) (body (s ++ more))
  unfolding body
  body-Extends s = bind-Extends more _ _ _ (byte-Extends s) λ v s.
      if-Extends more (not (v == version)) _ _ _ refl (
        bind-Extends more _ _ _ (split-Extends nonce_len s) λ nonce s.
          bind-Extends more _ _ _ (timestamp-Extends s) λ t s.
            bind-Extends more _ _ _ (split-Extends gate_id_len s) λ gate_id s.
              bind-Extends more _ _ _ (split-Extends thumbprint_len s) λ key s.
                bind-Extends more _ _ _ (byte-Extends s) λ count s.
                  if-Extends more (bad_count count) _ _ _ refl (
                    bind-Extends more _ _ _ (ports_from-Extends count [] s)
                      λ ports s. bind-Extends more _ _ _ (split-Extends sig_len s) λ sig s. refl))

-- What reads on to the very end of a longer input has read too little of the shorter one.
short_before :
    (a : Authorization) (x : ℕ) (back : List ℕ) {y : Result (Authorization × List ℕ) WireError}
    (r : Result (Authorization × List ℕ) WireError)
    → Extends (x ∷ back) r y
    → y ≡ ok (a, [])
    → r ≡ err too_short
short_before a x back (ok (b, s)) h e =
    let over : s ++ x ∷ back ≡ [] = cc (h, e) in
    absurd (omega (arith, ap (length {0}) over, length-append s (x ∷ back)))
short_before a x back (err too_short) h e = refl
short_before a x back (err (bad_version v)) h e = cc (h, e)
short_before a x back (err (bad_suite v)) h e = cc (h, e)
short_before a x back (err (bad_port_count v)) h e = cc (h, e)
short_before a x back (err trailing_bytes) h e = cc (h, e)

-- A proper prefix of an encoding of a well-typed authorization is too short.
pub decode_truncated :
    (a : Authorization) (front : List ℕ) (x : ℕ) (back : List ℕ)
    → IsTyped a
    → encode a ≡ ok (front ++ x ∷ back)
    → decode front ≡ err too_short
decode_truncated a front x back t h =
    let (shape, good) = encode-layout a (front ++ x ∷ back) h in
    let whole : body (front ++ x ∷ back) ≡ ok (a, []) = rw shape (body-layout a [] t good) in
    let small : length front < 2 ^ 64 = omega (
      arith,
      length-append front (x ∷ back),
      ap (length {0}) shape,
      length-layout a t,
      count_bounds (length a.ports) good,
    ) in
    decode-body front small
    ∙ rw (short_before a x back (body front) (body-Extends (x ∷ back) front) whole)

-- Bytes behind an encoding of a well-typed authorization are refused.
decode_trailing :
    (a : Authorization) (bytes : List ℕ) (x : ℕ) (more : List ℕ)
    → IsTyped a
    → encode a ≡ ok bytes
    → length (bytes ++ x ∷ more) < 2 ^ 64
    → decode (bytes ++ x ∷ more) ≡ err trailing_bytes
decode_trailing a bytes x more t h small =
    let (shape, good) = encode-layout a bytes h in
    decode-body (bytes ++ x ∷ more) small
    ∙ rw (shape, layout-append a (x ∷ more), body-layout a (x ∷ more) t good) (ground arith)
