-- ===== src/Gated/WelcomeTests.antt =====
-- The knock of a client that is provisioned, and of an endpoint that holds a token.
use spa_device.Prelude.{
  ℕ, ◌≡◌, inl, inr, refl, List, [], ◌∷◌, none, some, replicate, ℕ_eq, List_eq, arith,
}
use spa_device.Prelude.Assoc.{lookup}
use spa_device.Wire.{modern}
use spa_device.Core.{opened}
use spa_device.Bpf.Tables.{assoc_map}
use spa_device.Ebpf.Flows.{FlowKey_eq}
use spa_device.Crypto.{AgreementAlg}
use spa_device.Crypto.Toy.{toy, toy_agreement, token_id, psk_sealed, bytes_array}
use spa_device.Gated.Trust.{lookup_policy}
use spa_device.Gated.Daemon.{Arrival, Daemon, knock}
use spa_device.Gated.Welcome.{IsProvisioned, knock-opened}
use spa_device.Crypto.Toy.{
  toy_lawful, toy_agrees, toy_signing, toy_signs, request, request-IsRequest, drawn,
  drawn-DrawsKeys, toy_gate-IsGateKey, toy_client, toy_client_built, signed_packet, signed_sealed,
}
use spa_device.Gated.Bootstrap.{IsIssued, knock-enrolled}
use spa_device.Gated.KnockTests.{Allow, daemon, arrival}

abbrev open_daemon : Daemon AgreementAlg Allow
open_daemon = record daemon {
  trust = record {
    clients = (replicate 32 0, (replicate 32 4, 22 ∷ 443 ∷ 8080 ∷ [])) ∷ [];
    tokens = [];
    suite = modern;
  };
}

abbrev signed_arrival : Arrival
signed_arrival = record (arrival 1500) { datagram = signed_packet }

client_listed :
    lookup open_daemon.trust.clients toy_client.thumbprint
    ≡ some (toy_client.public, 22 ∷ 443 ∷ 8080 ∷ [])
unfolding lookup
client_listed = refl

nonce_unseen : lookup {V = ℕ} [] request.nonce ≡ none
unfolding lookup
nonce_unseen = refl

toy_client-IsProvisioned : IsProvisioned open_daemon signed_arrival toy_client request
toy_client-IsProvisioned = record {
  gate_key = toy_gate-IsGateKey;
  suite = refl;
  trust_suite = refl;
  allowed = 22 ∷ 443 ∷ 8080 ∷ [];
  known = client_listed;
  typed = request-IsRequest;
  for_gate = refl;
  permitted = (inl refl, (inr (inl refl), tt));
  not_old = omega arith;
  not_early = omega arith;
  unseen = nonce_unseen;
}

knock-opened_example : (knock open_daemon signed_arrival).0 ≡ opened (22 ∷ 443 ∷ [])
knock-opened_example =
    knock-opened toy_lawful toy_agrees toy_signs open_daemon signed_arrival modern none (some 4)
      toy_client request 3 drawn toy_client_built drawn-DrawsKeys toy_client-IsProvisioned
      signed_sealed

no_client_listed : lookup {V = List ℕ × List ℕ} [] token_id ≡ none
unfolding lookup
no_client_listed = refl

token_listed : lookup daemon.trust.tokens token_id ≡ some (9 ∷ [], 22 ∷ 443 ∷ [])
unfolding lookup
token_listed = refl

token-IsIssued : IsIssued daemon (arrival 1500) (9 ∷ []) token_id request
token-IsIssued = record {
  gate_key = toy_gate-IsGateKey;
  allowed = 22 ∷ 443 ∷ [];
  no_client = no_client_listed;
  known = token_listed;
  id_length = bytes_array 32 5 (omega arith);
  typed = request-IsRequest;
  for_gate = refl;
  permitted = (inl refl, (inr (inl refl), tt));
  not_old = omega arith;
  not_early = omega arith;
  unseen = nonce_unseen;
}

knock-enrolled_example :
    ((knock daemon (arrival 1500)).0 ≡ opened (22 ∷ 443 ∷ []))
    × (lookup_policy (knock daemon (arrival 1500)).1.trust token_id ≡ none)
knock-enrolled_example =
    knock-enrolled toy_lawful toy_agrees daemon (arrival 1500) (9 ∷ []) token_id request drawn
      drawn-DrawsKeys token-IsIssued psk_sealed
