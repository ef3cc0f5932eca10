-- ===== src/Gated/Bundle.antt =====
-- spa-gated/src/bundle.rs: the signed bundle. The crate `toml` is a field of `BundleFormat`.
use spa_device.Prelude.{
  ℕ, ◌≤◌, ◌≡◌, refl, true, not, List, length, take, drop, Option, none, some, Result, ok, err,
  ◌>>=◌, ok_or, map_err, ltb, if◌then◌else◌, if_step, arith,
}
use spa_device.Wire.{modern}
use spa_device.Crypto.{Primitives, verify_signature}
use spa_device.Gated.Config.{
  RawClient, RawToken, ClientEntry, TokenEntry, Formats, parse_clients, parse_tokens,
}

abbrev pub bundle_sig_len : ℕ
bundle_sig_len = 64

pub record Bundle : Type 0 where
  pub generation : ℕ
  pub protected_ports : List ℕ
  pub clients : List ClientEntry
  pub tokens : List TokenEntry

pub record RawBundle : Type 0 where
  pub generation : ℕ
  pub protected_ports : List ℕ
  pub client : List RawClient
  pub token : List RawToken

pub data BundleError : Type 0 where
  unreadable too_short bad_signature unparsable bad_entry : BundleError

-- `toml::from_str` of `str::from_utf8`.
pub record BundleFormat : Type 0 where
  pub bundle_from_toml : List ℕ → Option RawBundle

module _ ⦃aws : Primitives⦄ ⦃formats : Formats⦄ ⦃toml : BundleFormat⦄ where
  -- `file` is what the file system answers for the path.
  unfoldable pub load_verify : Option (List ℕ) → List ℕ → Result Bundle BundleError
  load_verify file anchor_pubkey = do
    data_bytes ← ok_or unreadable file
    if ltb (length data_bytes) bundle_sig_len then err too_short else do
      let sig = take bundle_sig_len data_bytes
      let body = drop bundle_sig_len data_bytes
      if not (verify_signature modern anchor_pubkey body sig) then err bad_signature else do
        raw ← ok_or unparsable (toml.bundle_from_toml body)
        clients ← map_err bad_entry (parse_clients raw.client)
        tokens ← map_err bad_entry (parse_tokens raw.token)
        ok (record {
          generation = raw.generation;
          protected_ports = raw.protected_ports;
          clients = clients;
          tokens = tokens;
        })

  -- A file whose signature, its first 64 bytes, verifies under the anchor over the rest.
  pub record IsSigned (file : Option (List ℕ)) (anchor_pubkey : List ℕ) : Type 0 where
    pub content : List ℕ
    pub read : file ≡ some content
    pub long : bundle_sig_len ≤ length content
    pub verified :
        verify_signature modern anchor_pubkey
          (drop bundle_sig_len content)
          (take bundle_sig_len content)
        ≡ true

  -- Only a signed file gives a bundle.
  pub load_verify-IsSigned :
      (file : Option (List ℕ)) (anchor_pubkey : List ℕ) (b : Bundle)
      → load_verify file anchor_pubkey ≡ ok b
      → IsSigned file anchor_pubkey
  unfolding load_verify
  load_verify-IsSigned none anchor_pubkey b h = cc h
  load_verify-IsSigned (some content) anchor_pubkey b h =
      if_step (ltb (length content) bundle_sig_len) _ _ h λ long h.
        if_step
          (not (
            verify_signature modern anchor_pubkey (drop bundle_sig_len content)
              (take bundle_sig_len content)))
          _ _ h
          λ verified h. record {
            content = content;
            read = refl;
            long = ground (arith, long);
            verified = ground (arith, verified);
          }
