-- ===== src/Core/Tests.antt =====
-- The fakes and the harness of the tests of spa-core/src/lib.rs, and the theorems at them.
use spa_device.Prelude.{
  ℕ, ◌≡◌, ◌↔◌, refl, Bool, true, false, List, [], ◌∷◌, ◌++◌, Option, none, some, Result, ok, err,
  replicate, if◌then◌else◌, contains, ℕ_eq, List_eq,
}
use spa_device.Wire.{Authorization, fips}
use spa_device.Core.{
  IpAddr, v4, Opened, OpenError, open_error, Auth, psk, ClientPolicy, Clock, Crypto, TrustStore,
  ReplayGuard, GateWriter, Reject, opened, rejected, Gatekeeper, admit,
}
use spa_device.Core.Admit.{Admits, admit-opened}
use spa_device.Core.Refuse.{Refuses, admit-rejected_iff, admit-rejected}

record FakeClock : Type 0 where
  now : ℕ

record FakeCrypto : Type 0 where
  preset : Option Authorization
  verify_ok : Bool

record FakeTrust : Type 0 where
  policy : Option (List ℕ)
  auth : Auth
  single_use : Bool
  consumed : Bool

record FakeReplay : Type 0 where
  seen : List (List ℕ)

record FakeGate : Type 0 where
  opens : List (IpAddr × List ℕ × ℕ)

instance abbrev fake_clock : Clock FakeClock
fake_clock = record { now_unix_nanos = λ c. c.now }

abbrev fake_open : Option Authorization → Result Opened OpenError
fake_open none = err open_error
fake_open (some a) = ok (record { auth = a; signing_bytes = 0xaa ∷ [] })

instance abbrev fake_crypto : Crypto FakeCrypto
fake_crypto = record {
  open_packet = λ c packet. fake_open c.preset;
  verify = λ c suite key message mac. c.verify_ok;
  verify_mac = λ c key message mac. c.verify_ok;
}

abbrev fake_lookup : FakeTrust → Option (List ℕ) → Option ClientPolicy
fake_lookup t none = none
fake_lookup t (some ports) = some (record {
  public_key = replicate 65 0;
  suite = fips;
  allowed_ports = ports;
  auth = t.auth;
  single_use = t.single_use;
})

instance abbrev fake_trust : TrustStore FakeTrust
fake_trust = record {
  lookup = λ t thumbprint. if t.consumed then none else fake_lookup t t.policy;
  consume = λ t thumbprint. record t { consumed = true };
}

instance abbrev fake_replay : ReplayGuard FakeReplay
fake_replay = record {
  admit = λ r nonce.
      if contains r.seen nonce then (false, r) else (true, record { seen = nonce ∷ r.seen });
}

instance abbrev fake_gate : GateWriter FakeGate
fake_gate = record {
  open_ports = λ g source ports ttl. record { opens = g.opens ++ (source, ports, ttl) ∷ [] };
}

abbrev gate : List ℕ
gate = replicate 16 1

abbrev knock : ℕ → List ℕ → Authorization
knock ts ports = record {
  nonce = replicate 16 3;
  timestamp_nanos = ts;
  gate_id = gate;
  key_thumbprint = replicate 32 2;
  ports = ports;
  signature = replicate 64 9;
}

abbrev Harness : Type 0
Harness = Gatekeeper FakeClock FakeCrypto FakeTrust FakeReplay FakeGate

abbrev harness : Authorization → Harness
harness a = record {
  config = record { gate_id = gate; skew_nanos = 100; pinhole_nanos = 400 };
  clock = record { now = 1000 };
  crypto = record { preset = some a; verify_ok = true };
  trust = record {
    policy = some (22 ∷ 8443 ∷ []);
    auth = psk;
    single_use = true;
    consumed = false;
  };
  replay = record { seen = [] };
  gate = record { opens = [] };
}

abbrev source : IpAddr
source = v4 (10 ∷ 0 ∷ 0 ∷ 7 ∷ [])

abbrev valid : Harness
valid = harness (knock 1000 (22 ∷ []))

accepts_valid_knock : (admit valid [] source).0 ≡ opened (22 ∷ [])
unfolding admit
accepts_valid_knock = refl

opens_gate_and_burns :
    ((admit valid [] source).1.gate.opens ≡ (source, 22 ∷ [], 400) ∷ [])
    × ((admit valid [] source).1.trust.consumed ≡ true)
unfolding admit
opens_gate_and_burns = (refl, refl)

window_edge : (admit (harness (knock 1100 (22 ∷ []))) [] source).0 ≡ opened (22 ∷ [])
unfolding admit
window_edge = refl

past_window : (admit (harness (knock 1101 (22 ∷ []))) [] source).0 ≡ rejected Reject.expired
unfolding admit
past_window = refl

port_refused :
    (admit (harness (knock 1000 (22 ∷ 9999 ∷ []))) [] source).0 ≡ rejected Reject.port_not_allowed
unfolding admit
port_refused = refl

admit-opened_example : Admits valid [] source (22 ∷ [])
admit-opened_example = admit-opened valid [] source (22 ∷ []) accepts_valid_knock

abbrev valid_policy : ClientPolicy
valid_policy = record {
  public_key = replicate 65 0;
  suite = fips;
  allowed_ports = 22 ∷ 8443 ∷ [];
  auth = psk;
  single_use = true;
}

abbrev valid_opened : Opened
valid_opened = record { auth = knock 1000 (22 ∷ []); signing_bytes = 0xaa ∷ [] }

admit-rejected_iff_example :
    ((admit valid [] source).0 ≡ rejected Reject.replay) ↔ Refuses valid [] Reject.replay
admit-rejected_iff_example = admit-rejected_iff valid [] source Reject.replay

abbrev late : Harness
late = harness (knock 1101 (22 ∷ []))

admit-rejected_example : (admit late [] source).1 ≡ late
admit-rejected_example = admit-rejected late [] source Reject.expired past_window
