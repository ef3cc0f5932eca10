-- ===== src/Gated/Daemon.antt =====
-- spa-gated/src/main.rs: the gatekeeper that `run` builds, the knock loop, and what the bundle
-- watcher writes into the trust store between two knocks. The clocks are read once for each knock.
use spa_device.Prelude.{ℕ, ◌+◌, ◌*◌, ◌%◌, ◌^◌, List, [], ◌∷◌, take, Option, none, Result, ok, ◌>>=◌}
use spa_device.Core.{IpAddr, Decision, Gatekeeper, admit}
use spa_device.Grant.{Grant}
use spa_device.Bpf.{BpfMap}
use spa_device.Crypto.{CryptoError, Primitives, Agreement}
use spa_device.Crypto.Gate.{GateKeypair, from_raw_private, gate_crypto}
use spa_device.Gated.Config.{ClientEntry, TokenEntry, Config}
use spa_device.Gated.Replay.{MemReplay, new_replay, replay_guard}
use spa_device.Gated.Trust.{SharedTrust, new_trust, set_clients, set_tokens, trust_store}
use spa_device.Gated.Writer.{
  SystemClock, since_epoch, system_clock, saturating_mul, monotonic_now_ns, WriterAt, gate_writer,
}

abbrev pub pinhole_nanos : ℕ
pinhole_nanos = 30000 * 1000000

-- `[0u8; 1500]`, the buffer of the loop.
abbrev pub knock_buffer : ℕ
knock_buffer = 1500

-- `Duration::from_secs(skew_seconds * 2 + 1)`, in nanoseconds.
unfoldable pub replay_window : ℕ → ℕ
replay_window skew_seconds = (skew_seconds * 2 + 1) % 2 ^ 64 * 1000000000

-- A datagram, and the readings of the clocks when it is handled.
pub record Arrival : Type 0 where
  pub datagram : List ℕ
  pub source : IpAddr
  pub unix : Option ℕ
  pub instant : ℕ
  pub tv_sec : ℕ
  pub tv_nsec : ℕ

-- A knock, or one of the two writes of the watcher.
pub data Event : Type 0 where
  knocked : Arrival → Event
  clients_set : List ClientEntry → Event
  tokens_set : List TokenEntry → Event

abbrev pub Daemon : Type 0 → Type 0 → Type 0
Daemon P A = Gatekeeper SystemClock (GateKeypair P) SharedTrust (MemReplay × ℕ) (WriterAt A)

module _ {P A : Type 0} where
  abbrev pub read_clocks : Daemon P A → Arrival → Daemon P A
  read_clocks gk a = record gk {
    clock = since_epoch a.unix;
    replay = (gk.replay.0, a.instant);
    gate = record gk.gate { now_ns = monotonic_now_ns a.tv_sec a.tv_nsec };
  }

  unfoldable pub build_gatekeeper :
      ⦃dh : Agreement P⦄
      → Config
      → List ℕ
      → List ClientEntry
      → List TokenEntry
      → A
      → Result (Daemon P A) CryptoError
  build_gatekeeper cfg gate_id clients tokens allow = do
    gate_key ← from_raw_private cfg.suite cfg.gate_private
    ok (record {
      config = record {
        gate_id = gate_id;
        skew_nanos = saturating_mul cfg.skew_seconds 1000000000;
        pinhole_nanos = pinhole_nanos;
      };
      clock = since_epoch none;
      crypto = gate_key;
      trust = set_tokens (set_clients (new_trust cfg.suite) clients) tokens;
      replay = (new_replay (replay_window cfg.skew_seconds), 0);
      gate = record {
        writer = record { allow = allow; nft_floor = cfg.nftables_floor };
        now_ns = 0;
        nft = [];
      };
    })

  module _ ⦃dh : Agreement P⦄ ⦃aws : Primitives⦄ ⦃map : BpfMap A (List ℕ) Grant⦄ where
    unfoldable pub knock : Daemon P A → Arrival → Decision × Daemon P A
    knock gk a = admit (read_clocks gk a) (take knock_buffer a.datagram) a.source

    unfoldable pub step : Daemon P A → Event → Daemon P A
    unfolding knock
    step gk (knocked a) = (knock gk a).1
    step gk (clients_set clients) = record gk { trust = set_clients gk.trust clients }
    step gk (tokens_set tokens) = record gk { trust = set_tokens gk.trust tokens }

    unfoldable pub run : Daemon P A → List Event → Daemon P A
    unfolding step
    run gk [] = gk
    run gk (e ∷ es) = run (step gk e) es
