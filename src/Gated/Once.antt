-- ===== src/Gated/Once.antt =====
-- The knock loop of spa-gated/src/main.rs never opens for the same datagram twice.
use spa_device.Prelude.{
  ℕ, ◌+◌, ◌-◌, ◌*◌, ◌≤◌, ◌<◌, ◌≡◌, inl, inr, refl, ap, sym, subst, ◌∙◌, true, List, [], ◌∷◌, take,
  some, ok, ℕ_eq, List_eq, arith,
}
use spa_device.Prelude.Assoc.{lookup}
use spa_device.Core.{Opened, opened, ClientPolicy, admit}
use spa_device.Core.Admit.{admit-opened, after_open}
use spa_device.Core.Keeps.{admit-Keeps}
use spa_device.Grant.{Grant}
use spa_device.Bpf.{BpfMap}
use spa_device.Crypto.{Primitives, Agreement}
use spa_device.Crypto.Gate.{open_packet, gate_crypto}
use spa_device.Gated.Replay.{
  MemReplay, admit_nonce, window-admit_nonce, admit_nonce-fresh, admit_nonce-keeps,
  admit_nonce-stale, replay_guard,
}
use spa_device.Gated.Trust.{set_clients, set_tokens, trust_store}
use spa_device.Gated.Writer.{since_epoch, unix_nanos, system_clock, gate_writer}
use spa_device.Gated.Daemon.{
  knock_buffer, Arrival, Event, knocked, clients_set, tokens_set, Daemon, read_clocks, knock, run,
}

-- The monotonic clock does not run backwards between `from` and `until`.
abbrev pub IsOrdered : ℕ → List Event → ℕ → Type 0
IsOrdered from [] until = from ≤ until
IsOrdered from (knocked c ∷ es) until = (from ≤ c.instant) × IsOrdered c.instant es until
IsOrdered from (clients_set clients ∷ es) until = IsOrdered from es until
IsOrdered from (tokens_set tokens ∷ es) until = IsOrdered from es until

ordered-le : (from until : ℕ) (es : List Event) → IsOrdered from es until → from ≤ until
ordered-le from until [] h = h
ordered-le from until (knocked c ∷ es) h = omega (arith, ordered-le c.instant until es h.1)
ordered-le from until (clients_set clients ∷ es) h = ordered-le from until es h
ordered-le from until (tokens_set tokens ∷ es) h = ordered-le from until es h

-- Two readings of the wall clock in one skew window are less than the replay window apart.
within :
    (unix unix' instant instant' ts skew window : ℕ)
    → ts ≤ unix + skew
    → unix' ≤ ts + skew
    → unix + instant' ≤ unix' + instant
    → skew * 2 < window
    → instant' - instant < window
within unix unix' instant instant' ts skew window early old steady wide = omega arith

module _ {P A : Type 0} ⦃dh : Agreement P⦄ ⦃aws : Primitives⦄ ⦃map : BpfMap A (List ℕ) Grant⦄ where
  -- Same keys, same configuration, and the nonce is still in the cache.
  record Remembers (first gk : Daemon P A) (nonce : List ℕ) (t : ℕ) : Type 0 where
    config : gk.config ≡ first.config
    crypto_eq : gk.crypto ≡ first.crypto
    window : gk.replay.0.window ≡ first.replay.0.window
    seen : lookup gk.replay.0.seen nonce ≡ some t

  knock-Remembers :
      (first gk : Daemon P A) (c : Arrival) (nonce : List ℕ) (t : ℕ)
      → Remembers first gk nonce t
      → c.instant - t < first.replay.0.window
      → Remembers first (knock gk c).1 nonce t
  unfolding knock
  knock-Remembers first gk c nonce t r young =
      let keeps = admit-Keeps (read_clocks gk c) (take knock_buffer c.datagram) c.source in
      let early : c.instant - t < gk.replay.0.window = omega (arith, young, r.window) in
      elim keeps.replay_step [
        | inl same ↦ record {
          config = keeps.config ∙ r.config;
          crypto_eq = keeps.crypto_eq ∙ r.crypto_eq;
          window = ap (λ (x : MemReplay × ℕ). x.0.window) same ∙ r.window;
          seen = ap (λ (x : MemReplay × ℕ). lookup x.0.seen nonce) same ∙ r.seen;
        }
        | inr (n, shown) ↦ record {
          config = keeps.config ∙ r.config;
          crypto_eq = keeps.crypto_eq ∙ r.crypto_eq;
          window =
              ap (λ (x : MemReplay × ℕ). x.0.window) shown
              ∙ window-admit_nonce gk.replay.0 c.instant n
              ∙ r.window;
          seen =
              ap (λ (x : MemReplay × ℕ). lookup x.0.seen nonce) shown
              ∙ admit_nonce-keeps gk.replay.0 c.instant n nonce t r.seen early;
        }
      ]

  run-Remembers :
      (first gk : Daemon P A) (es : List Event) (nonce : List ℕ) (t from until : ℕ)
      → Remembers first gk nonce t
      → IsOrdered from es until
      → until - t < first.replay.0.window
      → Remembers first (run gk es) nonce t
  unfolding run
  run-Remembers first gk [] nonce t from until r h young = r
  run-Remembers first gk (knocked c ∷ es) nonce t from until r h young =
      let before = ordered-le c.instant until es h.1 in
      run-Remembers first (knock gk c).1 es nonce t c.instant until
        (knock-Remembers first gk c nonce t r (omega (arith, before, young))) h.1 young
  run-Remembers first gk (clients_set clients ∷ es) nonce t from until r h young =
      run-Remembers first (record gk { trust = set_clients gk.trust clients }) es nonce t from until
        (record { config = r.config; crypto_eq = r.crypto_eq; window = r.window; seen = r.seen }) h
        young
  run-Remembers first gk (tokens_set tokens ∷ es) nonce t from until r h young =
      run-Remembers first (record gk { trust = set_tokens gk.trust tokens }) es nonce t from until
        (record { config = r.config; crypto_eq = r.crypto_eq; window = r.window; seen = r.seen }) h
        young

  opened-Remembers :
      (gk : Daemon P A) (a : Arrival) (ports : List ℕ) (o : Opened) (policy : ClientPolicy)
      → (admit (read_clocks gk a) (take knock_buffer a.datagram) a.source).1
        ≡ after_open (read_clocks gk a) o policy a.source
      → (admit_nonce gk.replay.0 a.instant o.auth.nonce).0 ≡ true
      → Remembers gk (knock gk a).1 o.auth.nonce a.instant
  unfolding knock
  opened-Remembers gk a ports o policy after fresh =
      subst (λ (g : Daemon P A). Remembers gk g o.auth.nonce a.instant) (sym after)
        (record {
          config = refl;
          crypto_eq = refl;
          window = window-admit_nonce gk.replay.0 a.instant o.auth.nonce;
          seen = admit_nonce-fresh gk.replay.0 a.instant o.auth.nonce fresh;
        })

  -- No event changes the configuration or the keys.
  pub run_same :
      (gk : Daemon P A) (es : List Event)
      → ((run gk es).config ≡ gk.config) × ((run gk es).crypto ≡ gk.crypto)
  unfolding run knock
  run_same gk [] = (refl, refl)
  run_same gk (knocked c ∷ es) =
      let keeps = admit-Keeps (read_clocks gk c) (take knock_buffer c.datagram) c.source in
      let (config, keys) = run_same (knock gk c).1 es in
      (config ∙ keeps.config, keys ∙ keeps.crypto_eq)
  run_same gk (clients_set clients ∷ es) =
      run_same (record gk { trust = set_clients gk.trust clients }) es
  run_same gk (tokens_set tokens ∷ es) =
      run_same (record gk { trust = set_tokens gk.trust tokens }) es

  -- The same datagram is the same knock under the same keys.
  same_knock :
      (gk gk' : Daemon P A) (packet packet' : List ℕ) (o o' : Opened)
      → gk'.crypto ≡ gk.crypto
      → packet' ≡ packet
      → open_packet gk.crypto packet ≡ ok o
      → open_packet gk'.crypto packet' ≡ ok o'
      → o' ≡ o
  same_knock gk gk' packet packet' o o' keys same first second = cc (keys, same, first, second)

  -- A datagram that opened ports does not open any again, whatever comes between and whatever the
  -- watcher writes, if the replay window is longer than twice the skew and the wall clock is not set
  -- back between the two.
  pub knock-once :
      (gk : Daemon P A) (a b : Arrival) (ports later : List ℕ) (es : List Event)
      → gk.config.skew_nanos * 2 < gk.replay.0.window
      → (knock gk a).0 ≡ opened ports
      → b.datagram ≡ a.datagram
      → IsOrdered a.instant es b.instant
      → unix_nanos (since_epoch a.unix) + b.instant ≤ unix_nanos (since_epoch b.unix) + a.instant
      → ¬ ((knock (run (knock gk a).1 es) b).0 ≡ opened later)
  unfolding knock
  knock-once gk a b ports later es wide first same ordered steady second =
      let gk' = run (knock gk a).1 es in
      let x = admit-opened (read_clocks gk a) (take knock_buffer a.datagram) a.source ports first in
      let y =
        admit-opened (read_clocks gk' b) (take knock_buffer b.datagram) b.source later second in
      let keeps = admit-Keeps (read_clocks gk a) (take knock_buffer a.datagram) a.source in
      let (config, keys) = run_same (knock gk a).1 es in
      let one =
        same_knock gk gk' _ _ x.o y.o (keys ∙ keeps.crypto_eq) (ap (take knock_buffer) same)
          x.admissible.timely.decrypts y.admissible.timely.decrypts in
      let young : b.instant - a.instant < gk.replay.0.window =
        within (unix_nanos (since_epoch a.unix)) (unix_nanos (since_epoch b.unix)) a.instant
          b.instant x.o.auth.timestamp_nanos gk.config.skew_nanos gk.replay.0.window
          x.admissible.timely.not_early
          (rw (one, config ∙ keeps.config) at y.admissible.timely.not_old) steady wide in
      let r =
        run-Remembers gk (knock gk a).1 es x.o.auth.nonce a.instant a.instant b.instant
          (opened-Remembers gk a ports x.o x.policy x.after x.admissible.fresh) ordered young in
      let stale =
        admit_nonce-stale gk'.replay.0 b.instant x.o.auth.nonce a.instant r.seen
          (omega (arith, young, r.window)) in
      cc (stale, one, y.admissible.fresh)
