-- ===== src/Peerwire/Egress.antt =====
-- internal/peerwire/egress.go: the source addresses of a dial. An address is a number if it is an
-- IPv4 address, and none otherwise; `contains` stands for `IPNet.Contains`.
use we_sync.Base.{ℕ, Bool, List, [], ◌∷◌, ◌++◌, map, Option, none, some, String, if◌then◌else◌}

pub record IpNet : Type 0 where
  pub ip : Option ℕ
  pub contains : ℕ → Bool

unfoldable pub same_subnet_source_ips : Option ℕ → List IpNet → List ℕ
same_subnet_source_ips none nets = []
same_subnet_source_ips (some dst) [] = []
same_subnet_source_ips (some dst) (n ∷ nets) =
    let rest = same_subnet_source_ips (some dst) nets in
    elim n.ip [ none ↦ rest | some ip ↦ if n.contains dst then ip ∷ rest else rest ]

-- The unbound dial, none, comes last.
unfoldable pub dial_source_ips : (String → Option ℕ) → List IpNet → String → List (Option ℕ)
unfolding same_subnet_source_ips
dial_source_ips parse_ip nets dst_addr =
    map (λ ip. some ip) (same_subnet_source_ips (parse_ip dst_addr) nets) ++ (none ∷ [])
