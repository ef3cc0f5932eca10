-- ===== src/Gated/Address.antt =====
-- The three names that spa-gated/src and spa-ebpf/src/main.rs give to a source address.
use spa_device.Prelude.{
  ℕ, ◌≡◌, refl, ap, sym, ◌∙◌, true, List, [], ◌∷◌, ◌++◌, replicate, take, drop, take-append-drop,
  list_eq, list_eq_iff, ℕ_eq, Bool-cases, inl, inr,
}
use spa_device.Core.{IpAddr, v4, v6}
use spa_device.Gated.Nft.{normalize}
use spa_device.Gated.Writer.{addr_key}

mapped_octets :
    (octets : List ℕ)
    → list_eq (take 12 octets) (replicate 10 0 ++ 255 ∷ 255 ∷ []) ≡ true
    → addr_key (v4 (drop 12 octets)) ≡ octets
unfolding addr_key
mapped_octets octets h =
    ap (λ l. l ++ drop 12 octets) {x = replicate 10 0 ++ 255 ∷ 255 ∷ []} {y = take 12 octets}
      (sym ((list_eq_iff (take 12 octets) (replicate 10 0 ++ 255 ∷ 255 ∷ [])).0 h))
    ∙ take-append-drop 12 octets

-- The address that the floor is told is the one that the data path looks up: normalizing a source
-- does not change its key.
pub addr_key-normalize : (source : IpAddr) → addr_key (normalize source) ≡ addr_key source
unfolding addr_key normalize
addr_key-normalize (v4 octets) = refl
addr_key-normalize (v6 octets) =
    elim (Bool-cases (list_eq (take 12 octets) (replicate 10 0 ++ 255 ∷ 255 ∷ []))) [
      | inl mapped ↦ rw (normalize, mapped) (mapped_octets octets mapped)
      | inr other ↦ rw (normalize, other) refl
    ]
