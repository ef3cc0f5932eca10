-- ===== src/Gated/Trust.antt =====
-- `SharedTrust` of spa-gated/src/adapters.rs. The two maps stand behind locks there; each call takes
-- one lock at a time, and is one step here.
use spa_device.Prelude.{
  ℕ, ◌≡◌, true, false, List, [], ◌∷◌, Option, none, some, if◌then◌else◌, ℕ_eq, List_eq, list_eq,
  eq_refl, arith,
}
use spa_device.Prelude.Assoc.{HashMap, lookup, insert, remove, lookup-remove}
use spa_device.Wire.{Suite}
use spa_device.Core.{signature, psk, ClientPolicy, TrustStore}
use spa_device.Gated.Config.{ClientEntry, TokenEntry}

-- Key material and ports.
abbrev pub Entry : Type 0
Entry = List ℕ × List ℕ

pub record SharedTrust : Type 0 where
  pub clients : HashMap (List ℕ) Entry
  pub tokens : HashMap (List ℕ) Entry
  pub suite : Suite

abbrev pub new_trust : Suite → SharedTrust
new_trust suite = record { clients = []; tokens = []; suite = suite }

-- The loops of `set` and of `set_tokens`.
unfoldable pub insert_clients : HashMap (List ℕ) Entry → List ClientEntry → HashMap (List ℕ) Entry
insert_clients m [] = m
insert_clients m (c ∷ cs) = insert_clients (insert m c.thumbprint (c.public_key, c.ports)) cs

unfoldable pub insert_tokens : HashMap (List ℕ) Entry → List TokenEntry → HashMap (List ℕ) Entry
insert_tokens m [] = m
insert_tokens m (t ∷ ts) = insert_tokens (insert m t.token_id (t.secret, t.ports)) ts

unfoldable pub set_clients : SharedTrust → List ClientEntry → SharedTrust
unfolding insert_clients
set_clients trust clients = record trust { clients = insert_clients [] clients }

unfoldable pub set_tokens : SharedTrust → List TokenEntry → SharedTrust
unfolding insert_tokens
set_tokens trust tokens = record trust { tokens = insert_tokens [] tokens }

abbrev pub client_policy : Suite → Entry → ClientPolicy
client_policy suite e = record {
  public_key = e.0;
  suite = suite;
  allowed_ports = e.1;
  auth = signature;
  single_use = false;
}

abbrev pub token_policy : Suite → Entry → ClientPolicy
token_policy suite e = record {
  public_key = e.0;
  suite = suite;
  allowed_ports = e.1;
  auth = psk;
  single_use = true;
}

unfoldable pub lookup_policy : SharedTrust → List ℕ → Option ClientPolicy
lookup_policy trust thumbprint = elim (lookup trust.clients thumbprint) [
  | some e ↦ some (client_policy trust.suite e)
  | none ↦ elim (lookup trust.tokens thumbprint) [
    | some e ↦ some (token_policy trust.suite e)
    | none ↦ none
  ]
]

unfoldable pub consume_token : SharedTrust → List ℕ → SharedTrust
consume_token trust thumbprint = record trust { tokens = remove trust.tokens thumbprint }

instance abbrev pub trust_store : TrustStore SharedTrust
trust_store = record { lookup = lookup_policy; consume = consume_token }

-- Burning a token takes that token away, and nothing else: the clients and the other tokens are
-- found as before, and so is a client that has the token's id for a thumbprint.
lookup_policy-consume_token :
    (trust : SharedTrust) (token j : List ℕ)
    → lookup_policy (consume_token trust token) j ≡ (elim (lookup trust.clients j) [
      | some e ↦ some (client_policy trust.suite e)
      | none ↦ if list_eq token j then none else lookup_policy trust j
    ])
unfolding lookup_policy consume_token
lookup_policy-consume_token trust token j = ground (arith, lookup-remove trust.tokens token j)

-- A policy that may be used once is a token's, and is gone after it was burnt.
pub lookup-burnt :
    (trust : SharedTrust) (token : List ℕ) (policy : ClientPolicy)
    → lookup_policy trust token ≡ some policy
    → policy.single_use ≡ true
    → lookup_policy (consume_token trust token) token ≡ none
unfolding lookup_policy consume_token
lookup-burnt trust token policy found once =
    ground (arith, found, once, lookup-remove trust.tokens token token, eq_refl token)

-- Burning a token brings no credential back.
pub lookup-gone :
    (trust : SharedTrust) (token j : List ℕ)
    → lookup_policy trust j ≡ none
    → lookup_policy (consume_token trust token) j ≡ none
unfolding lookup_policy consume_token
lookup-gone trust token j gone = ground (arith, gone, lookup-remove trust.tokens token j)
