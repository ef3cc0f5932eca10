-- ===== src/Gated/Loaded.antt =====
-- What `Config::load` of spa-gated/src/config.rs promises of a configuration that it accepts.
use spa_device.Prelude.{
  ℕ, ◌≡◌, subst, not, ◌==◌, true, List, [], ◌∷◌, length, All, Option, none, some, Result, ok, ok_or,
  bind_step, if_step, arith,
}
use spa_device.Wire.{thumbprint_len, gate_id_len}
use spa_device.Gated.Config.{
  RawControlPlane, RawClient, RawToken, ClientEntry, TokenEntry, ControlPlane, Config, ConfigError,
  unreadable, unparsable, Formats, starts_with, https, parse_control_plane, suite_name, transpose,
  hex_bytes, hex_len, hex_arr, parse_tokens, parse_clients, load_config,
}

-- If the value is there, it is as `P` says.
abbrev pub IfSome {ℓ} : {A : Type 0} → (A → Type ℓ) → Option A → Type ℓ
IfSome P none = Unit
IfSome P (some a) = P a

pub record IsLoaded (cfg : Config) : Type 0 where
  pub gate_private : length cfg.gate_private ≡ 32
  pub gate_id : IfSome (λ id. length id ≡ gate_id_len) cfg.gate_id
  pub clients : All (λ (c : ClientEntry). length c.thumbprint ≡ thumbprint_len) cfg.clients
  pub tokens : All (λ (t : TokenEntry). length t.token_id ≡ thumbprint_len) cfg.tokens
  pub control_plane :
      IfSome (λ (c : ControlPlane). starts_with c.url https ≡ true) cfg.control_plane

ok_injective : {A : Type 0} {a b : A} → ◌≡◌ {A = Result A ConfigError} (ok a) (ok b) → a ≡ b
ok_injective h = cc h

module _ ⦃formats : Formats⦄ where
  hex_len-length : (s : List ℕ) (n : ℕ) {b : List ℕ} → hex_len s n ≡ ok b → length b ≡ n
  unfolding hex_len
  hex_len-length s n h =
      bind_step (hex_bytes s) _ h
        λ b e h. if_step (not (length b == n)) _ _ h λ same h. ground (arith, same, h)

  parse_clients-All :
      (raw : List RawClient) {out : List ClientEntry}
      → parse_clients raw ≡ ok out
      → All (λ (c : ClientEntry). length c.thumbprint ≡ thumbprint_len) out
  unfolding parse_clients hex_arr
  parse_clients-All [] h =
      subst (All (λ (c : ClientEntry). length c.thumbprint ≡ thumbprint_len)) (ok_injective h) tt
  parse_clients-All (c ∷ raw) h =
      bind_step (hex_arr thumbprint_len c.thumbprint_hex) _ h λ thumbprint e1 h.
        bind_step (hex_bytes c.public_key_hex) _ h λ public_key e2 h.
          bind_step (parse_clients raw) _ h λ out e3 h.
            subst (All (λ (c : ClientEntry). length c.thumbprint ≡ thumbprint_len)) (ok_injective h)
              (hex_len-length c.thumbprint_hex thumbprint_len e1, parse_clients-All raw e3)

  parse_tokens-All :
      (raw : List RawToken) {out : List TokenEntry}
      → parse_tokens raw ≡ ok out
      → All (λ (t : TokenEntry). length t.token_id ≡ thumbprint_len) out
  unfolding parse_tokens hex_arr
  parse_tokens-All [] h =
      subst (All (λ (t : TokenEntry). length t.token_id ≡ thumbprint_len)) (ok_injective h) tt
  parse_tokens-All (c ∷ raw) h =
      bind_step (hex_arr thumbprint_len c.token_id_hex) _ h λ token_id e1 h.
        bind_step (hex_bytes c.secret_hex) _ h λ secret e2 h.
          bind_step (parse_tokens raw) _ h λ out e3 h.
            subst (All (λ (t : TokenEntry). length t.token_id ≡ thumbprint_len)) (ok_injective h)
              (hex_len-length c.token_id_hex thumbprint_len e1, parse_tokens-All raw e3)

  transpose-IfSome :
      {A B : Type 0} (P : B → Type 0) (f : A → Result B ConfigError) (o : Option A) {out : Option B}
      → ((a : A) (b : B) → f a ≡ ok b → P b)
      → transpose f o ≡ ok out
      → IfSome P out
  transpose-IfSome P f none each h = subst (IfSome P) (ok_injective h) tt
  transpose-IfSome P f (some a) each h =
      bind_step (f a) _ h λ b e h. subst (IfSome P) (ok_injective h) (each a b e)

  https_only :
      (raw : RawControlPlane) (c : ControlPlane)
      → parse_control_plane raw ≡ ok c
      → starts_with c.url https ≡ true
  unfolding parse_control_plane
  https_only raw c h = if_step (not (starts_with raw.url https)) _ _ h λ secure h.
      subst (λ (x : ControlPlane). starts_with x.url https ≡ true) (ok_injective h)
        (ground (arith, secure))

  -- A configuration that is accepted has a private key of 32 bytes, ids and thumbprints of their
  -- lengths, and a control plane, if any, at an address that begins with `https://`.
  pub load_config-IsLoaded :
      (file : Option (List ℕ)) (cfg : Config) → load_config file ≡ ok cfg → IsLoaded cfg
  unfolding load_config hex_arr
  load_config-IsLoaded file cfg h = bind_step (ok_or unreadable file) _ h λ text e0 h.
      bind_step (ok_or unparsable (formats.config_from_toml text)) _ h λ raw e1 h.
        bind_step (suite_name raw.suite) _ h λ suite e2 h.
          bind_step (transpose hex_bytes raw.config_anchor_hex) _ h λ anchor e3 h.
            bind_step (hex_len raw.gate_private_hex 32) _ h λ gate_private e4 h.
              bind_step (transpose (hex_arr gate_id_len) raw.gate_id_hex) _ h λ gate_id e5 h.
                bind_step (parse_clients raw.client) _ h λ clients e6 h.
                  bind_step (parse_tokens raw.token) _ h λ tokens e7 h.
                    bind_step (transpose parse_control_plane raw.control_plane) _ h
                      λ control_plane e8 h. subst IsLoaded (ok_injective h) (record {
                        gate_private = hex_len-length raw.gate_private_hex 32 e4;
                        gate_id =
                            transpose-IfSome (λ id. length id ≡ gate_id_len) (hex_arr gate_id_len)
                              raw.gate_id_hex (λ s id. hex_len-length s gate_id_len) e5;
                        clients = parse_clients-All raw.client e6;
                        tokens = parse_tokens-All raw.token e7;
                        control_plane =
                            transpose-IfSome (λ (c : ControlPlane). starts_with c.url https ≡ true)
                              parse_control_plane raw.control_plane https_only e8;
                      })
