-- ===== src/Gated/Reload.antt =====
-- What a bundle's credentials become in `SharedTrust` of spa-gated/src/adapters.rs when the watcher
-- of spa-gated/src/main.rs applies it.
use spa_device.Prelude.{
  ℕ, ◌≡◌, refl, ◌∙◌, List, [], ◌∷◌, Option, none, some, if◌then◌else◌, List_eq, ℕ_eq, list_eq,
  arith,
}
use spa_device.Prelude.Assoc.{HashMap, lookup, insert, lookup-insert}
use spa_device.Gated.Config.{ClientEntry, TokenEntry}
use spa_device.Gated.Trust.{
  Entry, SharedTrust, insert_clients, insert_tokens, set_clients, set_tokens, client_policy,
  token_policy, lookup_policy,
}

-- The last of the entries that has the thumbprint.
unfoldable pub last_client : List ClientEntry → List ℕ → Option Entry
last_client [] j = none
last_client (c ∷ cs) j = elim (last_client cs j) [
  | some e ↦ some e
  | none ↦ if list_eq c.thumbprint j then some (c.public_key, c.ports) else none
]

unfoldable pub last_token : List TokenEntry → List ℕ → Option Entry
last_token [] j = none
last_token (t ∷ ts) j = elim (last_token ts j) [
  | some e ↦ some e
  | none ↦ if list_eq t.token_id j then some (t.secret, t.ports) else none
]

lookup-insert_clients :
    (m : HashMap (List ℕ) Entry) (cs : List ClientEntry) (j : List ℕ)
    → lookup (insert_clients m cs) j
      ≡ (elim (last_client cs j) [ some e ↦ some e | none ↦ lookup m j ])
unfolding insert_clients last_client
lookup-insert_clients m [] j = refl
lookup-insert_clients m (c ∷ cs) j =
    lookup-insert_clients (insert m c.thumbprint (c.public_key, c.ports)) cs j
    ∙ ground (arith, lookup-insert m c.thumbprint (c.public_key, c.ports) j)

lookup-insert_tokens :
    (m : HashMap (List ℕ) Entry) (ts : List TokenEntry) (j : List ℕ)
    → lookup (insert_tokens m ts) j
      ≡ (elim (last_token ts j) [ some e ↦ some e | none ↦ lookup m j ])
unfolding insert_tokens last_token
lookup-insert_tokens m [] j = refl
lookup-insert_tokens m (t ∷ ts) j =
    lookup-insert_tokens (insert m t.token_id (t.secret, t.ports)) ts j
    ∙ ground (arith, lookup-insert m t.token_id (t.secret, t.ports) j)

-- A bundle replaces every credential, whatever the store held before, burnt tokens included: a
-- thumbprint is then that of the bundle's last client with it, or else of its last token with it,
-- or unknown.
pub lookup_policy-set_tokens :
    (trust : SharedTrust) (clients : List ClientEntry) (tokens : List TokenEntry) (j : List ℕ)
    → lookup_policy (set_tokens (set_clients trust clients) tokens) j
      ≡ (elim (last_client clients j) [
        | some e ↦ some (client_policy trust.suite e)
        | none ↦ elim (last_token tokens j) [
          | some e ↦ some (token_policy trust.suite e)
          | none ↦ none
        ]
      ])
unfolding lookup_policy set_tokens set_clients lookup
lookup_policy-set_tokens trust clients tokens j =
    ground (arith, lookup-insert_clients [] clients j, lookup-insert_tokens [] tokens j)
