-- ===== src/Wire/Stream.antt =====
-- The decoder as a parser on the bytes that are left, with no position: the reader of
-- spa-common/src/lib.rs implements it.
use spa_device.Prelude.{
  ℕ, zero, suc, ◌+◌, ◌-◌, ◌^◌, ◌≤◌, ◌<◌, Bool, true, false, not, List, [], ◌∷◌, ◌++◌, ltb, ◌==◌,
  ◌≡◌, refl, ap, sym, ◌∙◌, subst, Bool-cases, inl, inr, if◌then◌else◌, length, drop, drop-drop,
  length-drop, get_or, Result, ok, err, ◌>>=◌, arith,
}
use spa_device.Prelude as Prelude
use spa_device.Prelude.Bytes.{from_be_bytes}
use spa_device.Wire.{
  version, nonce_len, gate_id_len, thumbprint_len, sig_len, WireError, too_short, bad_version,
  bad_port_count, trailing_bytes, Authorization, bad_count,
}
use spa_device.Wire.Reader.{Reader, new, take, u8, u16, u64, array}
use spa_device.Wire.Decode.{read_ports, decode}

abbrev pub Parser : Type 0 → Type 0
Parser A = List ℕ → Result (A × List ℕ) WireError

unfoldable pub split : ℕ → Parser (List ℕ)
split n s = if ltb (length s) n then err too_short else ok (Prelude.take n s, drop n s)

unfoldable pub byte : Parser ℕ
byte s = do (b, s') ← split 1 s; ok (get_or b 0 0, s')

unfoldable pub port : Parser ℕ
port s = do (b, s') ← split 2 s; ok (from_be_bytes (get_or b 0 0 ∷ get_or b 1 0 ∷ []), s')

unfoldable pub timestamp : Parser ℕ
timestamp s = do (b, s') ← split 8 s; ok (from_be_bytes b, s')

unfoldable pub ports_from : ℕ → List ℕ → Parser (List ℕ)
ports_from zero ports s = ok (ports, s)
ports_from (suc n) ports s = do (p, s') ← port s; ports_from n (ports ++ p ∷ []) s'

unfoldable pub body : Parser Authorization
body s = do
  (v, s) ← byte s
  if not (v == version) then err (bad_version v) else do
    (nonce, s) ← split nonce_len s
    (timestamp_nanos, s) ← timestamp s
    (gate_id, s) ← split gate_id_len s
    (key_thumbprint, s) ← split thumbprint_len s
    (count, s) ← byte s
    if bad_count count then err (bad_port_count count) else do
      (ports, s) ← ports_from count [] s
      (signature, s) ← split sig_len s
      ok (
        record {
          nonce = nonce;
          timestamp_nanos = timestamp_nanos;
          gate_id = gate_id;
          key_thumbprint = key_thumbprint;
          ports = ports;
          signature = signature;
        },
        s,
      )

abbrev pub finish : Authorization × List ℕ → Result Authorization WireError
finish (a, s) = if not (length s == 0) then err trailing_bytes else ok a

-- The reader stands before the bytes `s`, inside a slice that memory can hold.
record Rest (r : Reader) (s : List ℕ) : Type 0 where
  left : drop r.pos r.buf ≡ s
  inside : r.pos ≤ length r.buf
  small : length r.buf < 2 ^ 64

abbrev Agrees :
    {A : Type 0} → Result (A × Reader) WireError → Result (A × List ℕ) WireError → Type 0
Agrees (ok (a, r)) (ok (b, s)) = (a ≡ b) × Rest r s
Agrees (err e) (err f) = e ≡ f
Agrees _ _ = ⊥

Rest-length : {r : Reader} {s : List ℕ} → Rest r s → length r.buf ≡ r.pos + length s
Rest-length {r} {s} h = omega (arith, ap (length {0}) h.left, length-drop r.pos r.buf, h.inside)

module _ (n : ℕ) (r : Reader) (s : List ℕ) (h : Rest r s) (fits : ltb (length s) n ≡ false) where
  take_fits : take n r ≡ ok (Prelude.take n s, record r { pos = r.pos + n })
  unfolding take
  take_fits =
      let same : r.pos + n - r.pos ≡ n = omega arith in
      ground (
        arith,
        Rest-length h,
        h.small,
        h.left,
        ap (λ (k : ℕ). Prelude.take k (drop r.pos r.buf)) same,
      )

  Rest-drop : Rest (record r { pos = r.pos + n }) (drop n s)
  Rest-drop = record {
    left = sym (drop-drop r.pos n r.buf) ∙ ap (λ (l : List ℕ). drop n l) h.left;
    inside = ground (arith, Rest-length h);
    small = h.small;
  }

take-Agrees : (n : ℕ) (r : Reader) (s : List ℕ) → Rest r s → Agrees (take n r) (split n s)
unfolding take split
take-Agrees n r s h = elim (Bool-cases (ltb (length s) n)) [
  | inl short ↦ rw short (ground (arith, Rest-length h, h.small))
  | inr fits ↦ rw (fits, take_fits n r s h fits) (refl, Rest-drop n r s h fits)
]

bind-Agrees :
    {A B : Type 0} (m : Result (A × Reader) WireError) (n : Result (A × List ℕ) WireError)
    (f : A × Reader → Result (B × Reader) WireError)
    (g : A × List ℕ → Result (B × List ℕ) WireError)
    → Agrees m n
    → ((a : A) (r : Reader) (s : List ℕ) → Rest r s → Agrees (f (a, r)) (g (a, s)))
    → Agrees (m >>= f) (n >>= g)
bind-Agrees (ok (a, r)) (ok (b, s)) f g h k =
    subst (λ c. Agrees (f (a, r)) (g (c, s))) h.0 (k a r s h.1)
bind-Agrees (err e) (err d) f g h k = h
bind-Agrees (ok x) (err e) f g h k = absurd h
bind-Agrees (err e) (ok x) f g h k = absurd h

-- The same where the positions are dropped at the end.
bind-eq :
    {A B C : Type 0} (m : Result (A × Reader) WireError) (n : Result (A × List ℕ) WireError)
    (f : A × Reader → Result C WireError) (g : A × List ℕ → Result B WireError)
    (k : B → Result C WireError)
    → Agrees m n
    → ((a : A) (r : Reader) (s : List ℕ) → Rest r s → f (a, r) ≡ (g (a, s) >>= k))
    → (m >>= f) ≡ ((n >>= g) >>= k)
bind-eq (ok (a, r)) (ok (b, s)) f g k h step =
    subst (λ c. f (a, r) ≡ (g (c, s) >>= k)) h.0 (step a r s h.1)
bind-eq (err e) (err d) f g k h step = ap err h
bind-eq (ok x) (err e) f g k h step = absurd h
bind-eq (err e) (ok x) f g k h step = absurd h

if-eq :
    {B C : Type 0} (b : Bool) {x y : Result C WireError} (x' y' : Result B WireError)
    (k : B → Result C WireError)
    → x ≡ (x' >>= k)
    → y ≡ (y' >>= k)
    → (if b then x else y) ≡ ((if b then x' else y') >>= k)
if-eq true x' y' k p q = p
if-eq false x' y' k p q = q

u8-Agrees : (r : Reader) (s : List ℕ) → Rest r s → Agrees (u8 r) (byte s)
unfolding u8 byte
u8-Agrees r s h =
    bind-Agrees (take 1 r) (split 1 s) _ _ (take-Agrees 1 r s h) (λ b r' s' h'. (refl, h'))

u16-Agrees : (r : Reader) (s : List ℕ) → Rest r s → Agrees (u16 r) (port s)
unfolding u16 port
u16-Agrees r s h =
    bind-Agrees (take 2 r) (split 2 s) _ _ (take-Agrees 2 r s h) (λ b r' s' h'. (refl, h'))

u64-Agrees : (r : Reader) (s : List ℕ) → Rest r s → Agrees (u64 r) (timestamp s)
unfolding u64 timestamp
u64-Agrees r s h =
    bind-Agrees (take 8 r) (split 8 s) _ _ (take-Agrees 8 r s h) (λ b r' s' h'. (refl, h'))

array-Agrees : (n : ℕ) (r : Reader) (s : List ℕ) → Rest r s → Agrees (array n r) (split n s)
unfolding array
array-Agrees = take-Agrees

read_ports-Agrees :
    (n : ℕ) (ports : List ℕ) (r : Reader) (s : List ℕ)
    → Rest r s
    → Agrees (read_ports n ports r) (ports_from n ports s)
unfolding read_ports ports_from
read_ports-Agrees zero ports r s h = (refl, h)
read_ports-Agrees (suc n) ports r s h =
    bind-Agrees (u16 r) (port s) _ _ (u16-Agrees r s h)
      (λ p r' s' h'. read_ports-Agrees n (ports ++ p ∷ []) r' s' h')

new-Rest : (buf : List ℕ) → length buf < 2 ^ 64 → Rest (new buf) buf
new-Rest buf h = record { left = refl; inside = omega arith; small = h }

-- Decoding is parsing the body from the front and asking that nothing is left.
pub decode-body : (buf : List ℕ) → length buf < 2 ^ 64 → decode buf ≡ (body buf >>= finish)
unfolding decode body
decode-body buf small = bind-eq _ _ _ _ finish (u8-Agrees _ _ (new-Rest buf small)) λ v r s h.
    if-eq (not (v == version)) _ _ finish refl (
      bind-eq _ _ _ _ finish (array-Agrees nonce_len r s h) λ nonce r s h.
        bind-eq _ _ _ _ finish (u64-Agrees r s h) λ t r s h.
          bind-eq _ _ _ _ finish (array-Agrees gate_id_len r s h) λ gate_id r s h.
            bind-eq _ _ _ _ finish (array-Agrees thumbprint_len r s h) λ key r s h.
              bind-eq _ _ _ _ finish (u8-Agrees r s h) λ count r s h.
                if-eq (bad_count count) _ _ finish refl (
                  bind-eq _ _ _ _ finish (read_ports-Agrees count [] r s h) λ ports r s h.
                    bind-eq _ _ _ _ finish (array-Agrees sig_len r s h) λ signature r s h.
                      let left : length r.buf - r.pos ≡ length s = omega (arith, Rest-length h) in
                      rw left))
