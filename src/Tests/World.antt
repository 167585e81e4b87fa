-- ===== src/Tests/World.antt =====
-- Concrete answers of DPDK for the runs.
use rust_dpdk.Prelude.{ℕ, List, [], ◌∷◌, ℤ, pos, negsuc, some}
use rust_dpdk.Dpdk
use rust_dpdk.Dpdk.{Dpdk, Call, RawStats, RawLink}

-- A port in promiscuous mode, and a bonded device on port 2; every other call succeeds.
abbrev answer : Call → ℤ
answer (Dpdk.eth_promiscuous_get p) = pos 1
answer (Dpdk.eth_bond_create name mode socket) = pos 2
answer _ = pos 0

abbrev no_stats : RawStats
no_stats = record { ipackets = 0; opackets = 0; ibytes = 0; obytes = 0; ierrors = 0; oerrors = 0 }

abbrev link_up : RawLink
link_up = record { link_speed = 10000; link_duplex = 1; link_autoneg = 1; link_status = 1 }

abbrev mac : List ℕ
mac = 2 ∷ 0 ∷ 0 ∷ 0 ∷ 0 ∷ 1 ∷ []

abbrev with_answers : (Call → ℤ) → Dpdk
with_answers ret = record {
  ret = λ h c. ret c;
  count = λ h c. 2;
  ptr = λ h c. some 4096;
  errno = λ h. pos 0;
  stats = λ h p. no_stats;
  mtu = λ h p. 1500;
  mac = λ h p. mac;
  link = λ h p. link_up;
  slaves = λ h p. 0 ∷ 1 ∷ [];
}

abbrev pub working : Dpdk
working = with_answers answer

-- Every call fails with `-EINVAL`.
abbrev pub broken : Dpdk
broken = with_answers (λ c. negsuc 21)

-- Every call returns 0.
abbrev pub obedient : Dpdk
obedient = with_answers (λ c. pos 0)
