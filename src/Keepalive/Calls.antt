-- ===== src/Keepalive/Calls.antt =====
-- The methods of `Keepalive` of rte/src/common/keepalive.rs. A keep-alive is the address of its C
-- structure.
use rust_dpdk.Prelude.{
  ℕ, ◌≡◌, ◌-◌, ◌^◌, [], ◌∷◌, ◌++◌, Option, none, some, ℤ, pos, negsuc, length, ltb, if◌then◌else◌,
  refl, arith,
}
use rust_dpdk.Outcome.{done}
use rust_dpdk.Dpdk
use rust_dpdk.Dpdk.{Dpdk, History, M, pure, call_ptr, run, ◌>>=◌, ◌>>◌}
use rust_dpdk.Errors.{Result, err, rte_error, ptr_as_result}
use rust_dpdk.Utils.Callbacks.{Contexts, into_raw}
use rust_dpdk.Keepalive.{State}

-- `*core_id as i32`.
unfoldable pub as_i32 : ℕ → ℤ
as_i32 n = if ltb n (2 ^ 31) then pos n else negsuc (2 ^ 32 - 1 - n)

abbrev pub FailureCallback : Type 0 → Type 0 → Type 0
FailureCallback T R = Option T → ℕ → R

abbrev pub RelayCallback : Type 0 → Type 0 → Type 0
RelayCallback T R = Option T → ℕ → Option State → ℕ → R

module _ (d : Dpdk) where
  unfoldable pub dispatch_pings : ℕ → M (Unit {0})
  dispatch_pings k = run d (Dpdk.keepalive_dispatch_pings k)

  unfoldable pub register_core : ℕ → ℕ → M (Unit {0})
  unfolding as_i32
  register_core k core_id = run d (Dpdk.keepalive_register_core k (as_i32 core_id))

  unfoldable pub mark_alive : ℕ → M (Unit {0})
  mark_alive k = run d (Dpdk.keepalive_mark_alive k)

  unfoldable pub mark_sleep : ℕ → M (Unit {0})
  mark_sleep k = run d (Dpdk.keepalive_mark_sleep k)

  module _ {T R : Type 0} where
    -- `Keepalive::new`, which `create` calls, with the boxes of the callbacks.
    unfoldable pub create :
        FailureCallback T R
        → Option T
        → Contexts (FailureCallback T R) (Option T)
        → M (Result ℕ × Contexts (FailureCallback T R) (Option T))
    unfolding into_raw ptr_as_result
    create callback arg boxes =
        let (p, after) = into_raw (record { callback = callback; arg = arg }) boxes in
        do
          k ← call_ptr d (Dpdk.keepalive_create p)
          λ h. (done (ptr_as_result k (d.errno h), after), h)

    unfoldable pub register_relay_callback :
        ℕ
        → RelayCallback T R
        → Option T
        → Contexts (RelayCallback T R) (Option T)
        → M (Contexts (RelayCallback T R) (Option T))
    unfolding into_raw
    register_relay_callback k callback arg boxes =
        let (p, after) = into_raw (record { callback = callback; arg = arg }) boxes in
        do run d (Dpdk.keepalive_register_relay_callback k p); pure after

    -- Two registrations of a relay callback box both callbacks, and both boxes are live then.
    pub register_relay_callback-twice :
        (k : ℕ) (f g : RelayCallback T R) (a b : Option T)
        (boxes : Contexts (RelayCallback T R) (Option T)) (h : History)
        → (do after ← register_relay_callback k f a boxes; register_relay_callback k g b after) h
          ≡ (
            done (
                (boxes ++ some (record { callback = f; arg = a }) ∷ [])
                ++ some (record { callback = g; arg = b }) ∷ []),
            (h ++ Dpdk.keepalive_register_relay_callback k (length boxes) ∷ [])
                ++ Dpdk.keepalive_register_relay_callback k
                    (length (boxes ++ some (record { callback = f; arg = a }) ∷ []))
                  ∷ [],
          )
    unfolding register_relay_callback into_raw
    register_relay_callback-twice k f g a b boxes h = refl

    -- Where DPDK makes no keep-alive, `create` gives its error, and the box of the callback stays, with
    -- no one who holds its pointer.
    pub create-leaks :
        (callback : FailureCallback T R) (arg : Option T)
        (boxes : Contexts (FailureCallback T R) (Option T)) (h : History)
        → d.ptr h (Dpdk.keepalive_create (length boxes)) ≡ none
        → let after = h ++ Dpdk.keepalive_create (length boxes) ∷ [] in
          create callback arg boxes h ≡ (
            done (
              err (rte_error (d.errno after)),
              boxes ++ some (record { callback = callback; arg = arg }) ∷ [],
            ),
            after,
          )
    unfolding create into_raw ptr_as_result
    create-leaks callback arg boxes h e = ground (arith, e)
