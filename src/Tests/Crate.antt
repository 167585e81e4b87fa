-- ===== src/Tests/Crate.antt =====
-- Runs of the crate's own modules.
use rust_dpdk.Prelude.{
  ℕ, ◌+◌, ◌%◌, ◌<◌, ◌≡◌, [], ◌∷◌, none, some, Bool, true, false, ◌==◌, ◌||◌, ltb, if◌then◌else◌,
  All, ◌≢◌, filter, refl, arith,
}
use rust_dpdk.Outcome.{done}
use rust_dpdk.Text.{codes}
use rust_dpdk.Text.Radix.{from_str_radix, u8_max}
use rust_dpdk.Errors.{ok, rte_check}
use rust_dpdk.Ether.{EtherAddr, IsOctets, from_str, to_string, parsed}
use rust_dpdk.Ether.Format.{from_str-to_string}
use rust_dpdk.Ether.{random, is_valid, is_multicast, is_local_admin, is_broadcast}
use rust_dpdk.Ether.Kinds.{random-is_valid}
use rust_dpdk.Prelude.{◌/◌}
use rust_dpdk.Lcore.{found, running, next_id, is_eligible, foreach_lcores, rte_max_lcore}
use rust_dpdk.Lcore.Next.{next_id-wrap, next_id-wrap_spins}
use rust_dpdk.Lcore.Foreach.{next_id-foreach_lcores, first}
use rust_dpdk.Kni.{release}
use rust_dpdk.Launch.Context.{LcoreContext, launch, launch_frees}
use rust_dpdk.Spinlock.{
  LockFns, RawSpinLock, SpinLaws, spin_lock_impl, with_lock, with_trylock, is_locked, init_lock,
  guard_excludes,
}
use rust_dpdk.Tests.World.{working}

abbrev addr : EtherAddr
addr = record { b0 = 2; b1 = 27; b2 = 0; b3 = 255; b4 = 16; b5 = 7 }

addr-IsOctets : IsOctets addr
addr-IsOctets = record {
  h0 = omega arith;
  h1 = omega arith;
  h2 = omega arith;
  h3 = omega arith;
  h4 = omega arith;
  h5 = omega arith;
}

from_str-to_string_example : from_str (to_string addr) ≡ parsed addr
from_str-to_string_example = from_str-to_string addr addr-IsOctets

abbrev on : ℕ → Bool
on id = id == 0 || id == 3

three_is_eligible : is_eligible on 0 true 3 ≡ true
unfolding is_eligible
three_is_eligible = refl

next_id-wrap_example :
    (k : ℕ) × (k < rte_max_lcore)
    × (next_id on 0 128 3 true true ≡ found ((3 + 1 + k) % rte_max_lcore))
    × (is_eligible on 0 true ((3 + 1 + k) % rte_max_lcore) ≡ true)
    × ((j : ℕ) → j < k → is_eligible on 0 true ((3 + 1 + j) % rte_max_lcore) ≡ false)
next_id-wrap_example =
    next_id-wrap on 0 true 3 (omega arith) 128 3 (omega arith) (omega arith) three_is_eligible

abbrev off : ℕ → Bool
off id = false

none_eligible : (n : ℕ) → n < rte_max_lcore → is_eligible off 0 false n ≡ false
unfolding is_eligible
none_eligible n h = refl

next_id-wrap_spins_example : next_id off 0 1000 5 false true ≡ running
next_id-wrap_spins_example = next_id-wrap_spins off 0 false 5 (omega arith) 1000 none_eligible

next_id-foreach_lcores_example :
    next_id on 0 128 0 false false ≡ first (filter (ltb 0) (foreach_lcores on 0 false))
next_id-foreach_lcores_example = next_id-foreach_lcores on 0 false 128 0 (omega arith) (omega arith)

released : (release working (some 7) []).0 ≡ done (ok tt, none)
unfolding release rte_check
released = refl

abbrev context : LcoreContext ℕ
context = record { callback = λ arg. elim arg [ none ↦ 0 | some n ↦ n + 1 ]; arg = some 4 }

launch_frees_example :
    (launch 1 context [] ≡ some (5 ∷ [], none ∷ []))
    × (launch 0 context [] ≡ some ([], some context ∷ []))
    × ((n : ℕ) → launch (n + 2) context [] ≡ none)
launch_frees_example = launch_frees context []

-- The lock functions of one core.
abbrev one_core : LockFns RawSpinLock
one_core = record {
  lock_fn = λ s. record { locked = 1 };
  unlock_fn = λ s. record { locked = 0 };
  trylock_fn = λ s. if s.locked == 0 then (1, record { locked = 1 }) else (0, s);
}

one_core-SpinLaws : SpinLaws one_core
one_core-SpinLaws = record {
  lock_takes = λ s. refl;
  unlock_frees = λ s. refl;
  trylock_free = refl;
  trylock_taken = refl;
}

abbrev read_lock : RawSpinLock → ℕ × RawSpinLock
read_lock s = (s.locked, s)

guard_excludes_example :
    (with_lock
        (spin_lock_impl one_core)
        (with_trylock (spin_lock_impl one_core) read_lock)
        (record { locked = 0 })
      ≡ (none, record { locked = 0 }))
    × (is_locked
          (spin_lock_impl one_core)
          (with_lock (spin_lock_impl one_core) read_lock (record { locked = 0 })).1
        ≡ false)
    × (with_trylock
          (spin_lock_impl one_core)
          read_lock
          (init_lock (spin_lock_impl one_core) (record { locked = 0 }))
        ≡ (some 1, record { locked = 0 }))
guard_excludes_example = guard_excludes one_core one_core-SpinLaws read_lock (record { locked = 0 })

xyz_has_no_colon : All (λ c. c ≢ b':') (codes "xyz")
xyz_has_no_colon = (omega arith, (omega arith, (omega arith, tt)))

xyz_is_no_byte : from_str_radix 16 u8_max (codes "xyz") ≡ none
unfolding from_str_radix
xyz_is_no_byte = refl

random-is_valid_example :
    (is_valid (random addr) ≡ true)
    × (is_multicast (random addr) ≡ false)
    × (is_local_admin (random addr) ≡ true)
    × (is_broadcast (random addr) ≡ false)
    × ((random addr).b0 / 4 ≡ addr.b0 / 4)
    × (record (random addr) { b0 = 0 } ≡ record addr { b0 = 0 })
random-is_valid_example = random-is_valid addr addr-IsOctets
