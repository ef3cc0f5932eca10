-- ===== src/Gated/Startup.antt =====
-- The replay window that spa-gated/src/main.rs chooses.
use spa_device.Prelude.{ℕ, ◌*◌, ◌^◌, ◌<◌, ◌≡◌, List, ok, bind_step, arith}
use spa_device.Crypto.{Agreement}
use spa_device.Crypto.Gate.{from_raw_private}
use spa_device.Gated.Config.{ClientEntry, TokenEntry, Config}
use spa_device.Gated.Writer.{saturating_mul}
use spa_device.Gated.Daemon.{replay_window, Daemon, build_gatekeeper}

long_window : (s : ℕ) → s < 2 ^ 62 → saturating_mul s 1000000000 * 2 < replay_window s
unfolding saturating_mul replay_window
long_window s h = omega arith

-- The replay cache keeps a nonce longer than a timestamp can stay within the skew: the window is
-- longer than twice the skew, for a configured skew below 2 ^ 62 seconds.
pub build_gatekeeper-window :
    {P A : Type 0} ⦃dh : Agreement P⦄ (cfg : Config) (gate_id : List ℕ) (clients : List ClientEntry)
    (tokens : List TokenEntry) (allow : A) (gk : Daemon P A)
    → build_gatekeeper cfg gate_id clients tokens allow ≡ ok gk
    → cfg.skew_seconds < 2 ^ 62
    → gk.config.skew_nanos * 2 < gk.replay.0.window
unfolding build_gatekeeper
build_gatekeeper-window {P = P} {A = A} cfg gate_id clients tokens allow gk h small =
    bind_step (from_raw_private cfg.suite cfg.gate_private) _ h
      λ gate_key e h. ground (arith, h, long_window cfg.skew_seconds small)
