-- ===== src/Gated/Grants.antt =====
-- `BpfGateWriter::open` of spa-gated/src/adapters.rs against the data path of spa-ebpf/src/main.rs.
use spa_device.Prelude.{
  ℕ, min, ◌+◌, ◌≤◌, ◌≡◌, ◌↔◌, refl, ap, ◌∙◌, Bool, true, false, ◌&&◌, List, [], ◌∷◌, ◌++◌,
  append_assoc, replicate, set, take, length, length-append, length-take, take-append, drop,
  length-drop, contains, contains_iff, some, ltb, if◌then◌else◌, list_eq, ℕ_eq, List_eq, IsIn,
  arith,
}
use spa_device.Core.{IpAddr, v4}
use spa_device.Grant.{max_grant_ports, Grant, allows_port}
use spa_device.Grant.Ports.{allows_port_iff}
use spa_device.Bpf.{BpfMap, LawfulHash}
use spa_device.Ebpf.Layout.{Addr, FlowKey, RateState}
use spa_device.Ebpf.Frame.{mapped_v4}
use spa_device.Ebpf.Gate.{Maps, source_allowed}
use spa_device.Gated.Writer.{saturating_add, addr_key, fill_ports, new_grant, WriterAt, open_gate}

set-append :
    (done rest : List ℕ) (x v : ℕ) → set (done ++ x ∷ rest) (length done) v ≡ done ++ v ∷ rest
set-append [] rest x v = refl
set-append (d ∷ done) rest x v = ap (λ l. d ∷ l) (set-append done rest x v)

-- From `i` on the loop overwrites `rest`, after what it has done.
fill_ports-eq :
    (g : Grant) (i : ℕ) (ps done rest : List ℕ)
    → g.ports ≡ done ++ rest
    → i ≡ length done
    → length ps ≤ length rest
    → fill_ports g i ps ≡ record {
      expiry_ns = g.expiry_ns;
      ports = done ++ (ps ++ drop (length ps) rest);
      port_count = g.port_count + length ps;
    }
unfolding fill_ports
fill_ports-eq g i [] done rest e at_end h = ground (arith, e)
fill_ports-eq g i (p ∷ ps) done [] e at_end h = absurd (omega arith)
fill_ports-eq g i (p ∷ ps) done (x ∷ rest) e at_end h =
    let stored : set g.ports i p ≡ (done ++ p ∷ []) ++ rest =
      rw (e, at_end, append_assoc) (set-append done rest x p) in
    let later =
      fill_ports-eq (record g { ports = set g.ports i p; port_count = g.port_count + 1 }) (i + 1) ps
        (done ++ p ∷ []) rest stored (omega (arith, length-append done (p ∷ []))) (omega arith) in
    later ∙ ground (arith, append_assoc done (p ∷ []) (ps ++ drop (length ps) rest))

-- The grant lists the first eight ports, and zeros behind them that do not count.
new_grant-eq :
    (ports : List ℕ) (expiry : ℕ)
    → new_grant ports expiry ≡ record {
      expiry_ns = expiry;
      ports = take 8 ports ++ drop (length (take 8 ports)) (replicate 8 0);
      port_count = length (take 8 ports);
    }
unfolding new_grant
new_grant-eq ports expiry =
    fill_ports-eq (record { expiry_ns = expiry; ports = replicate 8 0; port_count = 0 }) 0
      (take 8 ports) [] (replicate 8 0) refl refl (omega (arith, length-take 8 ports))
    ∙ ground arith

same_truth : {A : Type 0} (a b : Bool) → ((a ≡ true) ↔ A) → ((b ≡ true) ↔ A) → a ≡ b
same_truth true true ha hb = refl
same_truth true false ha hb = cc (hb.1 (ha.0 refl))
same_truth false true ha hb = cc (ha.1 (hb.0 refl))
same_truth false false ha hb = refl

new_grant-allows_port :
    (ports : List ℕ) (expiry p : ℕ)
    → allows_port (new_grant ports expiry) p ≡ contains (take 8 ports) p
new_grant-allows_port ports expiry p =
    let front = take 8 ports in
    let g : Grant = record {
      expiry_ns = expiry;
      ports = front ++ drop (length front) (replicate 8 0);
      port_count = length front;
    } in
    let size : length g.ports ≡ max_grant_ports = omega (
      arith,
      length-append front (drop (length front) (replicate 8 0)),
      length-drop {A = ℕ} (length front) (replicate 8 0),
      length-take 8 ports,
    ) in
    let counted : min (length front) max_grant_ports ≡ length front =
      omega (arith, length-take 8 ports) in
    let covers : (allows_port g p ≡ true) ↔ IsIn p front =
      rw (counted, take-append front (drop (length front) (replicate 8 0))) at
        (allows_port_iff g p size) in
    rw (new_grant-eq ports expiry)
      (same_truth (allows_port g p) (contains front p) (covers) (contains_iff front p))

-- The daemon and the data path name an IPv4 source by the same key.
pub addr_key-mapped_v4 :
    (a b c d : ℕ) → addr_key (v4 (a ∷ b ∷ c ∷ d ∷ [])) ≡ mapped_v4 (a ∷ b ∷ c ∷ d ∷ [])
unfolding addr_key mapped_v4
addr_key-mapped_v4 a b c d = refl

module _ {A P E R : Type 0} ⦃allow : BpfMap A Addr Grant⦄ ⦃protected : BpfMap P ℕ ℕ⦄
    ⦃established : BpfMap E FlowKey ℕ⦄ ⦃rate : BpfMap R Addr RateState⦄
    (lawful : LawfulHash allow) where
  -- After a grant is written, and until it expires, the data path lets its source open connections
  -- to the first eight of its ports and to no other port; another source may what it might before.
  pub open_gate-source_allowed :
      (w : WriterAt A) (source : IpAddr) (ports : List ℕ) (ttl : ℕ) (stored : A) (m : Maps A P E R)
      (now p : ℕ) (src : Addr)
      → allow.insert w.writer.allow
          (addr_key source)
          (new_grant ports (saturating_add w.now_ns ttl))
        ≡ some stored
      → source_allowed (record m { allow = (open_gate w source ports ttl).writer.allow }) src p now
        ≡ (if list_eq (addr_key source) src
            then ltb now (saturating_add w.now_ns ttl) && contains (take 8 ports) p
            else source_allowed (record m { allow = w.writer.allow }) src p now)
  unfolding open_gate source_allowed
  open_gate-source_allowed w source ports ttl stored m now p src h = ground (
    arith,
    h,
    lawful.get-insert w.writer.allow stored (addr_key source) _ src h,
    new_grant-allows_port ports (saturating_add w.now_ns ttl) p,
    new_grant-eq ports (saturating_add w.now_ns ttl),
  )
