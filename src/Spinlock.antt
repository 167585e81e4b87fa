-- ===== src/Spinlock.antt =====
-- rte/src/common/spinlock.rs. The lock functions of DPDK are C code; they are the fields of `LockImpl`,
-- each a function of the lock's memory, and `Lock` adds what the Rust code does.
use rust_dpdk.Prelude.{
  ℕ, ◌≡◌, Option, none, some, Bool, false, not, ◌==◌, if◌then◌else◌, ℤ, negsuc, arith,
}

-- `LockImpl` over a lock's memory `S`. A function that takes the lock returns when it has it.
pub record LockImpl (S : Type 0) : Type 0 where
  pub init : S → S
  pub lock : S → S
  pub unlock : S → S
  pub trylock : S → ℕ × S
  pub is_locked : S → ℕ

-- `rte_spinlock_t`.
pub record RawSpinLock : Type 0 where
  pub locked : ℕ

-- `rte_spinlock_recursive_t`.
pub record RawRecursiveSpinLock : Type 0 where
  pub sl : RawSpinLock
  pub user : ℤ
  pub count : ℕ

-- The four functions of DPDK that the source does not define.
pub record LockFns (S : Type 0) : Type 0 where
  pub lock_fn : S → S
  pub unlock_fn : S → S
  pub trylock_fn : S → ℕ × S

-- `SpinLockImpl` and `TmSpinLockImpl`, which differ in the functions of DPDK alone.
unfoldable pub spin_lock_impl : LockFns RawSpinLock → LockImpl RawSpinLock
spin_lock_impl f = record {
  init = λ s. record { locked = 0 };
  lock = f.lock_fn;
  unlock = f.unlock_fn;
  trylock = f.trylock_fn;
  is_locked = λ s. s.locked;
}

-- `RecursiveSpinLockImpl` and `RecursiveTmSpinLockImpl`.
unfoldable pub recursive_spin_lock_impl :
    LockFns RawRecursiveSpinLock → LockImpl RawRecursiveSpinLock
recursive_spin_lock_impl f = record {
  init = λ s. record { sl = record { locked = 0 }; user = negsuc 0; count = 0 };
  lock = f.lock_fn;
  unlock = f.unlock_fn;
  trylock = f.trylock_fn;
  is_locked = λ s. s.sl.locked;
}

module _ {S : Type 0} (impl : LockImpl S) where
  -- `Lock::init` and `Lock::is_locked`.
  unfoldable pub init_lock : S → S
  init_lock s = impl.init s

  unfoldable pub is_locked : S → Bool
  is_locked s = not (impl.is_locked s == 0)

  -- A guard is the right and the duty to unlock once: `with_guard` is a scope that holds one.
  unfoldable pub unlock : S → S
  unlock s = impl.unlock s

  -- `lock` with the code of the guard's scope, and the guard's `Drop` at its end.
  unfoldable pub with_lock : {A : Type 0} → (S → A × S) → S → A × S
  unfolding unlock
  with_lock body s = let (a, s') = body (impl.lock s) in (a, unlock s')

  -- `trylock` with the code that runs if there is a guard.
  unfoldable pub with_trylock : {A : Type 0} → (S → A × S) → S → Option A × S
  unfolding unlock
  with_trylock body s =
      let (taken, s1) = impl.trylock s in
      if taken == 0 then (none, s1) else (let (a, s2) = body s1 in (some a, unlock s2))

-- What DPDK's manual says of the functions of a spin lock: `lock` returns with the lock taken, `unlock`
-- gives it up, and `trylock` answers 1 and takes a lock that is free, and else 0.
pub record SpinLaws (f : LockFns RawSpinLock) : Type 0 where
  pub lock_takes : (s : RawSpinLock) → f.lock_fn s ≡ record { locked = 1 }
  pub unlock_frees : (s : RawSpinLock) → f.unlock_fn s ≡ record { locked = 0 }
  pub trylock_free : f.trylock_fn (record { locked = 0 }) ≡ (1, record { locked = 1 })
  pub trylock_taken : f.trylock_fn (record { locked = 1 }) ≡ (0, record { locked = 1 })

module _ (f : LockFns RawSpinLock) (laws : SpinLaws f) {A : Type 0} where
  -- In the scope of a guard another attempt at the lock gets no guard and does not run its code; at
  -- the end of the scope the lock is free; and on a lock that has been initialized an attempt gets a
  -- guard, runs its code, and leaves the lock free.
  pub guard_excludes :
      (body : RawSpinLock → A × RawSpinLock) (s : RawSpinLock)
      → (with_lock (spin_lock_impl f) (with_trylock (spin_lock_impl f) body) s
          ≡ (none, record { locked = 0 }))
        × (is_locked (spin_lock_impl f) (with_lock (spin_lock_impl f) body s).1 ≡ false)
        × (with_trylock (spin_lock_impl f) body (init_lock (spin_lock_impl f) s)
            ≡ (some (body (record { locked = 1 })).0, record { locked = 0 }))
  unfolding with_lock with_trylock spin_lock_impl is_locked init_lock unlock
  guard_excludes body s = (
    grind (arith, laws.lock_takes, laws.unlock_frees, laws.trylock_taken),
    grind (arith, laws.unlock_frees),
    grind (arith, laws.unlock_frees, laws.trylock_free),
  )
