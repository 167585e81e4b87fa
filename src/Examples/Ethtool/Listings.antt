-- ===== src/Examples/Ethtool/Listings.antt =====
-- The commands of rte/examples/ethtool/ethapp.rs over all ports, and `validate`. What a command prints is
-- its answer, a line for each element.
use rust_dpdk.Prelude.{
  ℕ, zero, suc, ◌+◌, ◌%◌, ◌^◌, ◌≡◌, List, [], ◌∷◌, Bool, true, false, inl, inr, length, range_from,
  refl, ap, sym, ◌∙◌, arith,
}
use rust_dpdk.Outcome.{Outcome-cases, done}
use rust_dpdk.Dpdk.{Dpdk, History, M, pure, ◌>>=◌}
use rust_dpdk.Errors.{expect}
use rust_dpdk.Ether.{EtherAddr, is_valid}
use rust_dpdk.Ethdev
use rust_dpdk.Ethdev.{EthLink, mtu, mac_addr, link, devices}
use rust_dpdk.Examples.Ethtool.Commands.{Mutex}

-- A loop over ports that prints a line at each.
unfoldable pub each : {A : Type 0} → (ℕ → M A) → List ℕ → M (List A)
each f [] = pure []
each f (p ∷ ps) = do a ← f p; rest ← each f ps; pure (a ∷ rest)

module _ (d : Dpdk) where
  -- The loop of the command `link`: the ports that are not valid are passed over.
  link_lines : List ℕ → M (List (ℕ × EthLink))
  unfolding Ethdev.is_valid link
  link_lines [] = pure []
  link_lines (p ∷ ps) = do
    valid ← Ethdev.is_valid d p
    elim valid [
      | false ↦ link_lines ps
      | true ↦ (do l ← link d p; rest ← link_lines ps; pure ((p, l) ∷ rest))
    ]

  unfoldable pub link_command : M (List (ℕ × EthLink))
  unfolding link_lines devices
  link_command = do ports ← devices d; link_lines ports

  -- `mtu_list` and `CmdIntMacParams::list`; the number of a port is cast to `u16`.
  unfoldable pub mtu_list_command : List Mutex → M (List ℕ)
  unfolding each mtu
  mtu_list_command ports =
      each (λ p. do r ← mtu d (p % 2 ^ 16); expect r) (range_from 0 (length ports))

  unfoldable pub mac_list_command : List Mutex → M (List (List ℕ))
  unfolding each mac_addr
  mac_list_command ports = each (λ p. mac_addr d (p % 2 ^ 16)) (range_from 0 (length ports))

-- `validate`: whether the address is unicast.
unfoldable pub validate_command : EtherAddr → Bool
unfolding is_valid
validate_command mac = is_valid mac

length-range_from : (i n : ℕ) → length (range_from i n) ≡ n
unfolding range_from
length-range_from i zero = refl
length-range_from i (suc n) = ap suc (length-range_from (i + 1) n)

each-length :
    {A : Type 0} (f : ℕ → M A) (ps : List ℕ) (h : History) {lines : List A}
    → (each f ps h).0 ≡ done lines
    → length lines ≡ length ps
unfolding each
each-length f [] h e = ground (arith, e)
each-length f (p ∷ ps) h {lines} e = elim (Outcome-cases (f p h).0) [
  | inr (x, stops) ↦ absurd (ground (arith, e, stops))
  | inl (a, went) ↦ elim (Outcome-cases (each f ps (f p h).1).0) [
    | inr (x, stops) ↦ absurd (ground (arith, e, went, stops))
    | inl (rest, all) ↦
        let same : a ∷ rest ≡ lines = ground (arith, e, went, all) in
        ap (λ (l : List _). length l) (sym same) ∙ ap suc (each-length f ps (f p h).1 all)
  ]
]

-- A list of MTUs that is printed to its end has a line for each port of the program, valid or not.
pub mtu_list_whole :
    (d : Dpdk) (ports : List Mutex) (h : History) {ms : List ℕ}
    → (mtu_list_command d ports h).0 ≡ done ms
    → length ms ≡ length ports
unfolding mtu_list_command
mtu_list_whole d ports h e =
    each-length _ (range_from 0 (length ports)) h e ∙ length-range_from 0 (length ports)
