-- ===== src/Gated/Nft.antt =====
-- spa-gated/src/nft.rs: what is asked of the `nft` program. The program is not part of the
-- repository: its state is the log of what it was asked, the newest last. Addresses
-- stand as their octets.
use spa_device.Prelude.{
  ℕ, max, List, [], ◌∷◌, ◌++◌, replicate, take, drop, Option, none, some, if◌then◌else◌, list_eq,
  ℕ_eq,
}
use spa_device.Prelude.Text.{codes, to_decimal}
use spa_device.Core.{IpAddr, v4, v6}

pub data NftSet : Type 0 where
  allow4 allow6 : NftSet

pub data NftCommand : Type 0 where
  -- `add element inet spa SET { ADDRESS timeout SECONDS s }`
  add_element : NftSet → List ℕ → ℕ → NftCommand
  -- `nft -f -`, with the script on its input.
  script : List ℕ → NftCommand

-- `Ipv6Addr::to_ipv4_mapped`.
abbrev pub to_ipv4_mapped : List ℕ → Option (List ℕ)
to_ipv4_mapped octets =
    if list_eq (take 12 octets) (replicate 10 0 ++ 255 ∷ 255 ∷ [])
    then some (drop 12 octets)
    else none

unfoldable pub normalize : IpAddr → IpAddr
normalize (v4 octets) = v4 octets
normalize (v6 octets) = elim (to_ipv4_mapped octets) [ some mapped ↦ v4 mapped | none ↦ v6 octets ]

-- The arguments of `nft` for an address that is normalized.
abbrev pub element : IpAddr → ℕ → NftCommand
element (v4 octets) secs = add_element allow4 octets secs
element (v6 octets) secs = add_element allow6 octets secs

unfoldable pub nft_allow : List NftCommand → IpAddr → ℕ → List NftCommand
unfolding normalize
nft_allow log source timeout_secs = log ++ element (normalize source) (max timeout_secs 1) ∷ []

-- `for p in protected { script.push_str(…) }`
unfoldable pub element_lines : List ℕ → List ℕ
element_lines [] = []
element_lines (p ∷ ps) =
    codes "add element inet spa ports { " ++ to_decimal p ++ codes " }\n" ++ element_lines ps

abbrev pub floor_text : List ℕ
floor_text =
    codes "add table inet spa\nflush table inet spa\ntable inet spa {\n"
    ++ codes "  set allow4 { type ipv4_addr; flags timeout; }\n"
    ++ codes "  set allow6 { type ipv6_addr; flags timeout; }\n"
    ++ codes "  set ports { type inet_service; }\n"
    ++ codes "  chain input {\n"
    ++ codes "    type filter hook input priority filter; policy accept;\n"
    ++ codes "    iif \"lo\" accept\n"
    ++ codes "    ct state established,related accept\n"
    ++ codes "    tcp dport @ports ip saddr @allow4 accept\n"
    ++ codes "    tcp dport @ports ip6 saddr @allow6 accept\n"
    ++ codes "    tcp dport @ports drop\n"
    ++ codes "  }\n}\n"

unfoldable pub install_floor : List NftCommand → List ℕ → List NftCommand
unfolding element_lines
install_floor log protected = log ++ script (floor_text ++ element_lines protected) ∷ []

unfoldable pub set_ports : List NftCommand → List ℕ → List NftCommand
unfolding element_lines
set_ports log protected =
    log ++ script (codes "flush set inet spa ports\n" ++ element_lines protected) ∷ []
