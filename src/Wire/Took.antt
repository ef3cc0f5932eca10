-- ===== src/Wire/Took.antt =====
-- What a successful read of the decoder in spa-common/src/lib.rs took from the front of the bytes.
use spa_device.Prelude.{
  ℕ, zero, suc, ◌^◌, ◌<◌, List, [], ◌∷◌, ◌++◌, ◌≡◌, refl, ap, sym, ◌∙◌, subst, length,
  take-append-drop, length-take, append_assoc, append-nil, All, All-of_append, ok, bind-eq-ok,
  get_or, arith,
}
use spa_device.Prelude.Bytes.{
  IsByte, IsArray, to_be_bytes, from_be_bytes, to-from_be_bytes, from_be_bytes-lt,
}
use spa_device.Wire.{port_bytes}
use spa_device.Wire.Stream.{split, byte, port, timestamp, ports_from}
use spa_device.Wire.RoundTrip.{byte-cons}

-- A successful read takes bytes off the front of bytes.
pub record Took (s x s' : List ℕ) (n : ℕ) : Type 0 where
  pub front : s ≡ x ++ s'
  pub array : IsArray n x
  pub rest : All IsByte s'

pub split_inv : (n : ℕ) (s x s' : List ℕ) → All IsByte s → split n s ≡ ok (x, s') → Took s x s' n
unfolding split
split_inv n s x s' h e =
    let front : s ≡ x ++ s' = ground (arith, take-append-drop n s) in
    let parts = All-of_append IsByte x s' (subst (All IsByte) front h) in
    record {
      front = front;
      array = record { size = ground (arith, length-take n s); bytes = parts.0 };
      rest = parts.1;
    }

-- The same for a number `v` that was read as the bytes `w v`.
pub record Parsed (s : List ℕ) (w : ℕ → List ℕ) (bound v : ℕ) (s' : List ℕ) : Type 0 where
  pub front : s ≡ w v ++ s'
  pub range : v < bound
  pub rest : All IsByte s'

pub byte_inv :
    (s : List ℕ) (b : ℕ) (s' : List ℕ)
    → All IsByte s
    → byte s ≡ ok (b, s')
    → Parsed s (λ v. v ∷ []) 256 b s'
byte_inv [] b s' h e = unfold byte split in cc e
byte_inv (x ∷ s) b s' h e =
    let same : (x ≡ b) × (s ≡ s') = ground (arith, byte-cons x s) in
    record {
      front = ground arith;
      range = subst (λ v. v < 256) same.0 h.0;
      rest = subst (All IsByte) same.1 h.1;
    }

number_inv :
    (n v : ℕ) {s x rest s' : List ℕ}
    → Took s x rest n
    → from_be_bytes x ≡ v
    → rest ≡ s'
    → Parsed s (to_be_bytes n) (256 ^ n) v s'
number_inv n v {x} took value same = record {
  front = rw (← value, to-from_be_bytes n x took.array, ← same) took.front;
  range = rw (← value) (from_be_bytes-lt n x took.array);
  rest = subst (All IsByte) same took.rest;
}

pub timestamp_inv :
    (s : List ℕ) (t : ℕ) (s' : List ℕ)
    → All IsByte s
    → timestamp s ≡ ok (t, s')
    → Parsed s (to_be_bytes 8) (256 ^ 8) t s'
unfolding timestamp
timestamp_inv s t s' h e =
    let (p, read, last) = bind-eq-ok (split 8 s) _ e in
    number_inv 8 t (split_inv 8 s p.0 p.1 h read) (ground arith) (ground arith)

two_bytes : (b : List ℕ) → length b ≡ 2 → get_or b 0 0 ∷ get_or b 1 0 ∷ [] ≡ b
two_bytes [] h = absurd (omega arith)
two_bytes (x ∷ []) h = absurd (omega arith)
two_bytes (x ∷ y ∷ []) h = refl
two_bytes (x ∷ y ∷ z ∷ b) h = absurd (omega arith)

port_inv :
    (s : List ℕ) (p : ℕ) (s' : List ℕ)
    → All IsByte s
    → port s ≡ ok (p, s')
    → Parsed s (to_be_bytes 2) (256 ^ 2) p s'
unfolding port
port_inv s v s' h e =
    let (p, read, last) = bind-eq-ok (split 2 s) _ e in
    let took = split_inv 2 s p.0 p.1 h read in
    let value : from_be_bytes p.0 ≡ v =
      ground (arith, ap from_be_bytes (two_bytes p.0 took.array.size)) in
    number_inv 2 v took value (ground arith)

pub record PortsTook (n : ℕ) (s done ports s' : List ℕ) : Type 0 where
  pub new : List ℕ
  pub whole : ports ≡ done ++ new
  pub count : length new ≡ n
  pub front : s ≡ port_bytes new ++ s'
  pub range : All (λ p. p < 256 ^ 2) new
  pub rest : All IsByte s'

pub ports_inv :
    (n : ℕ) (s done ports s' : List ℕ)
    → All IsByte s
    → ports_from n done s ≡ ok (ports, s')
    → PortsTook n s done ports s'
unfolding ports_from
ports_inv zero s done ports s' h e = record {
  new = [];
  whole = ground (arith, append-nil done);
  count = refl;
  front = ground arith;
  range = tt;
  rest = subst (All IsByte) (ground arith) h;
}
ports_inv (suc n) s done ports s' h e =
    let (p, read, later) = bind-eq-ok (port s) _ e in
    let first = port_inv s p.0 p.1 h read in
    let more = ports_inv n p.1 (done ++ p.0 ∷ []) ports s' first.rest later in
    record {
      new = p.0 ∷ more.new;
      whole = more.whole ∙ append_assoc done (p.0 ∷ []) more.new;
      count = ap suc more.count;
      front =
          first.front
          ∙ ap (λ l. to_be_bytes 2 p.0 ++ l) more.front
          ∙ sym (append_assoc (to_be_bytes 2 p.0) (port_bytes more.new) s');
      range = (first.range, more.range);
      rest = more.rest;
    }
