-- ===== src/Lcore/Roles.antt =====
-- The roles and sockets of rte/src/common/lcore.rs. The numbers of the roles are those of
-- rte-sys/src/raw.rs, where a fourth role, `ROLE_NON_EAL` with the number 3, has no value in `Role`.
use rust_dpdk.Prelude.{
  ℕ, ◌≡◌, [], ◌∷◌, Option, some, get_elem?, Bool, false, not, ◌==◌, ℤ, pos, negsuc, is_zero, refl,
  arith, if◌then◌else◌,
}
use rust_dpdk.Outcome.{done}
use rust_dpdk.Dpdk
use rust_dpdk.Dpdk.{Dpdk, History, M, pure, call, call_count, ◌>>=◌}
use rust_dpdk.Errors.{Result, ok, err, rte_error}

pub data Role : Type 0 where
  rte off service : Role

unfoldable pub role_number : Role → ℕ
role_number rte = 0
role_number off = 1
role_number service = 2

-- `Role::from`, which transmutes the number; `none` is a value that the type does not have.
unfoldable pub role_from : ℕ → Option Role
role_from n = get_elem? (rte ∷ off ∷ service ∷ []) n

module _ (d : Dpdk) where
  unfoldable pub is_enabled : ℕ → M Bool
  is_enabled id = do
    ret ← call d (Dpdk.lcore_is_enabled id)
    pure (elim ret [ pos n ↦ n == 1 | negsuc n ↦ false ])

  unfoldable pub has_role : ℕ → Role → M Bool
  unfolding role_number
  has_role id role = do ret ← call d (Dpdk.lcore_has_role id (role_number role)); pure (is_zero ret)

  unfoldable pub role : ℕ → M (Option Role)
  unfolding role_from
  role id = do n ← call_count d (Dpdk.eal_lcore_role id); pure (role_from n)

  unfoldable pub socket_id_by_idx : ℕ → M (Result ℤ)
  socket_id_by_idx idx = do
    id ← call d (Dpdk.socket_id_by_idx idx)
    elim id [
      | pos n ↦ pure (ok (pos n))
      | negsuc n ↦ (λ h. (done (err (rte_error (d.errno h))), h))
    ]

-- What the bindings document of the two questions about roles: both speak of the one role that a core
-- has, and `rte_lcore_has_role` answers a positive number where that is the role asked for, else 0.
pub record RoleLaws (d : Dpdk) (role_of : ℕ → Role) : Type 0 where
  pub asked :
      (h : History) (id n : ℕ)
      → d.ret h (Dpdk.lcore_has_role id n)
        ≡ (if n == role_number (role_of id) then pos 1 else pos 0)
  pub told : (h : History) (id : ℕ) → d.count h (Dpdk.eal_lcore_role id) ≡ role_number (role_of id)

pub role_from-role_number : (r : Role) → role_from (role_number r) ≡ some r
unfolding role_from role_number
role_from-role_number rte = refl
role_from-role_number off = refl
role_from-role_number service = refl

-- Where DPDK answers as the bindings document, `role` gives the role of the core, and `has_role` says
-- no for that role and yes for every other one.
pub has_role-role :
    (d : Dpdk) (role_of : ℕ → Role)
    → RoleLaws d role_of
    → (h : History) (id : ℕ) (r : Role)
    → ((role d id h).0 ≡ done (some (role_of id)))
      × ((has_role d id r h).0 ≡ done (not (role_number r == role_number (role_of id))))
unfolding role has_role
has_role-role d role_of laws h id r = (
  ground (arith, laws.told h id, role_from-role_number (role_of id)),
  ground (arith, laws.asked h id (role_number r)),
)
