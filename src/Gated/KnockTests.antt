-- ===== src/Gated/KnockTests.antt =====
-- A gate with a toy provider and an association list for the allow-list, and knocks at it.
use spa_device.Prelude.{
  ℕ, zero, suc, ◌%◌, ◌^◌, ◌+◌, ◌-◌, ◌*◌, ◌≤◌, ◌<◌, ◌≡◌, ◌⊎◌, inl, inr, refl, ap, sym, ◌∙◌, Bool,
  true, false, ◌&&◌, List, [], ◌∷◌, ◌++◌, map, Option, none, some, Result, ok, err, replicate,
  length, ltb, if◌then◌else◌, contains, list_eq, ℕ_eq, List_eq, All, min, arith,
}
use spa_device.Prelude.Bytes.{from_be_bytes}
use spa_device.Core.{v6}
use spa_device.Gated.Nft.{normalize}
use spa_device.Gated.Address.{addr_key-normalize}
use spa_device.Prelude.Assoc.{HashMap, lookup, insert, remove}
use spa_device.Wire.{modern}
use spa_device.Prelude as Prelude
use spa_device.Wire.{signing_bytes, encode}
use spa_device.Wire.Reader.{get_range, u8, take, array, u64, u16, checked_add}
use spa_device.Wire.Decode.{decode, read_ports}
use spa_device.Crypto.{derive, aead_seal, aead_open, mac_sha512, verify_mac}
use spa_device.Crypto.Gate.{get_from, checked_sub}
use spa_device.Crypto.Client.{seal_psk, seal_envelope}
use spa_device.Core.{admit_known, admit_opened, grant}
use spa_device.Gated.Replay.{admit_nonce, retain}
use spa_device.Core.{IpAddr, v4, opened, admit}
use spa_device.Grant.{Grant}
use spa_device.Bpf.Tables.{assoc_map, assoc_hash}
use spa_device.Ebpf.Layout.{Addr, FlowKey, RateState}
use spa_device.Ebpf.Flows.{FlowKey_eq}
use spa_device.Ebpf.Gate.{Maps, source_allowed}
use spa_device.Crypto.{AgreementAlg}
use spa_device.Crypto.Gate.{open_packet}
use spa_device.Crypto.Toy.{
  toy, toy_agreement, toy_gate, token_id, psk_packet, psk_opened, psk_opens,
}
use spa_device.Gated.Trust.{
  SharedTrust, client_policy, token_policy, lookup_policy, consume_token, set_clients, set_tokens,
}
use spa_device.Gated.Config.{TokenEntry}
use spa_device.Gated.Reload.{last_client, last_token, lookup_policy-set_tokens}
use spa_device.Gated.Writer.{saturating_add, addr_key, new_grant, WriterAt, open_gate, since_epoch}
use spa_device.Gated.Grants.{open_gate-source_allowed}
use spa_device.Gated.Daemon.{Arrival, Event, knocked, tokens_set, Daemon, knock, run}
use spa_device.Crypto.Toy.{toy_signing}
use spa_device.Gated.Once.{IsOrdered, run_same, knock-once}
use spa_device.Gated.Burn.{knock-burns}
use spa_device.Gated.Audit.{serve}
use spa_device.Gated.Audited.{IsAudited, serve-IsAudited}

abbrev trust : SharedTrust
trust = record { clients = []; tokens = (token_id, (9 ∷ [], 22 ∷ 443 ∷ [])) ∷ []; suite = modern }

-- The token of the store, listed again with another port.
abbrev listed : List TokenEntry
listed = record { token_id = token_id; secret = 9 ∷ []; ports = 8443 ∷ [] } ∷ []

lookup_policy-set_tokens_example :
    lookup_policy (set_tokens (set_clients (consume_token trust token_id) []) listed) token_id
    ≡ (elim (last_client [] token_id) [
      | some e ↦ some (client_policy modern e)
      | none ↦ elim (last_token listed token_id) [
        | some e ↦ some (token_policy modern e)
        | none ↦ none
      ]
    ])
unfolding consume_token
lookup_policy-set_tokens_example =
    lookup_policy-set_tokens (consume_token trust token_id) [] listed token_id

abbrev source : IpAddr
source = v4 (10 ∷ 0 ∷ 0 ∷ 5 ∷ [])

abbrev pub Allow : Type 0
Allow = HashMap Addr Grant

abbrev writer : WriterAt Allow
writer = record { writer = record { allow = []; nft_floor = true }; now_ns = 100; nft = [] }

abbrev maps : Maps Allow (HashMap ℕ ℕ) (HashMap FlowKey ℕ) (HashMap Addr RateState)
maps = record { allow = []; protected = []; established = []; config = none; rate = [] }

abbrev stored : Allow
stored = insert [] (addr_key source) (new_grant (22 ∷ []) (saturating_add 100 30))

open_gate-source_allowed_example :
    source_allowed
      (record maps { allow = (open_gate writer source (22 ∷ []) 30).writer.allow })
      (addr_key source)
      22
      120
    ≡ (if list_eq (addr_key source) (addr_key source)
        then ltb 120 (saturating_add 100 30) && contains {A = ℕ} (22 ∷ []) 22
        else source_allowed maps (addr_key source) 22 120)
open_gate-source_allowed_example =
    open_gate-source_allowed assoc_hash writer source (22 ∷ []) 30 stored maps 120 22
      (addr_key source) refl

abbrev pub daemon : Daemon AgreementAlg Allow
daemon = record {
  config = record {
    gate_id = replicate 16 1;
    skew_nanos = 2000000000;
    pinhole_nanos = 30000000000;
  };
  clock = since_epoch none;
  crypto = toy_gate;
  trust = trust;
  replay = (record { seen = []; window = 5000000000 }, 0);
  gate = writer;
}

abbrev pub arrival : ℕ → Arrival
arrival t = record {
  datagram = psk_packet;
  source = source;
  unix = some t;
  instant = t;
  tv_sec = 0;
  tv_nsec = t;
}

first_opens : (knock daemon (arrival 1500)).0 ≡ opened (22 ∷ 443 ∷ [])
unfolding knock admit admit_known admit_opened grant verify_mac admit_nonce retain consume_token
    lookup_policy lookup insert remove open_packet get_range get_from aead_open decode u8 take array
    u64 read_ports u16 checked_sub from_be_bytes checked_add seal_psk signing_bytes encode
    seal_envelope derive aead_seal mac_sha512
first_opens = refl

whole_packet : Prelude.take 1500 psk_packet ≡ psk_packet
unfolding seal_psk signing_bytes encode seal_envelope derive aead_seal mac_sha512
whole_packet = refl

known_token : lookup_policy trust token_id ≡ some (token_policy modern (9 ∷ [], 22 ∷ 443 ∷ []))
unfolding lookup_policy lookup
known_token = refl

abbrev between : List Event
between = knocked (arrival 1600) ∷ tokens_set [] ∷ []

in_order : IsOrdered 1500 between 1900
in_order = (omega arith, omega arith)

knock-once_example : ¬ (
    (knock (run (knock daemon (arrival 1500)).1 between) (arrival 1900)).0 ≡ opened (22 ∷ 443 ∷ []))
knock-once_example =
    knock-once daemon (arrival 1500) (arrival 1900) (22 ∷ 443 ∷ []) (22 ∷ 443 ∷ []) between
      (omega arith) first_opens refl in_order (omega arith)

packet_reads : open_packet toy_gate (Prelude.take 1500 psk_packet) ≡ ok psk_opened
packet_reads = ap (open_packet toy_gate) whole_packet ∙ psk_opens

same_key : (run (knock daemon (arrival 1500)).1 (map knocked (arrival 1600 ∷ []))).crypto ≡ toy_gate
unfolding run
same_key = (run_same daemon (knocked (arrival 1500) ∷ knocked (arrival 1600) ∷ [])).1

second_reads :
    open_packet
      (run (knock daemon (arrival 1500)).1 (map knocked (arrival 1600 ∷ []))).crypto
      (Prelude.take 1500 psk_packet)
    ≡ ok psk_opened
second_reads = ap (λ k. open_packet k (Prelude.take 1500 psk_packet)) same_key ∙ packet_reads

knock-burns_example : ¬ (
    (knock (run (knock daemon (arrival 1500)).1 (map knocked (arrival 1600 ∷ []))) (arrival 1900)).0
    ≡ opened (22 ∷ []))
knock-burns_example =
    knock-burns daemon (arrival 1500) (arrival 1900) psk_opened psk_opened
      (token_policy modern (9 ∷ [], 22 ∷ 443 ∷ [])) (22 ∷ 443 ∷ []) (22 ∷ []) (arrival 1600 ∷ [])
      packet_reads known_token refl first_opens second_reads refl

addr_key-normalize_example :
    addr_key (normalize (v6 (replicate 10 0 ++ 255 ∷ 255 ∷ 10 ∷ 0 ∷ 0 ∷ 5 ∷ [])))
    ≡ replicate 10 0 ++ 255 ∷ 255 ∷ 10 ∷ 0 ∷ 0 ∷ 5 ∷ []
unfolding addr_key
addr_key-normalize_example =
    addr_key-normalize (v6 (replicate 10 0 ++ 255 ∷ 255 ∷ 10 ∷ 0 ∷ 0 ∷ 5 ∷ []))

serve-IsAudited_example :
    IsAudited daemon []
      (knocked (arrival 1500) ∷ between)
      (serve daemon [] (knocked (arrival 1500) ∷ between))
serve-IsAudited_example = serve-IsAudited daemon [] (knocked (arrival 1500) ∷ between) refl
