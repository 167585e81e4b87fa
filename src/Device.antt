-- ===== src/Device.antt =====
-- rte/src/common/dev.rs: devices, hotplug, and the callbacks of device events. A device is its address.
use rust_dpdk.Prelude.{
  ℕ, ◌≡◌, List, [], ◌∷◌, ◌++◌, Option, none, some, Bool, not, is_zero, refl, length, get_elem?,
}
use rust_dpdk.Outcome.{done}
use rust_dpdk.Dpdk
use rust_dpdk.Dpdk.{Dpdk, History, M, pure, call, ◌>>=◌}
use rust_dpdk.Errors.{Result, map_ok, as_result}
use rust_dpdk.Utils.Callbacks.{
  CallbackContext, Contexts, into_raw, stub, handed, handed-one, handed-more,
}

-- The constants `RTE_DEV_EVENT_*` are 0, 1 and 2.
pub data Event : Type 0 where
  add remove max : Event

unfoldable pub event_from : ℕ → Option Event
event_from n = get_elem? (add ∷ remove ∷ max ∷ []) n

module _ (d : Dpdk) where
  unfoldable pub is_probed : ℕ → M Bool
  is_probed p = do ret ← call d (Dpdk.dev_is_probed p); pure (not (is_zero ret))

  unfoldable pub remove_device : ℕ → M (Result (Unit {0}))
  unfolding as_result
  remove_device p = do ret ← call d (Dpdk.dev_remove p); pure (map_ok (λ _. tt) (as_result ret))

  unfoldable pub hotplug_add : List ℕ → List ℕ → List ℕ → M (Result (Unit {0}))
  unfolding as_result
  hotplug_add busname devname drvargs = do
    ret ← call d (Dpdk.eal_hotplug_add busname devname drvargs)
    pure (map_ok (λ _. tt) (as_result ret))

  unfoldable pub hotplug_remove : List ℕ → List ℕ → M (Result (Unit {0}))
  unfolding as_result
  hotplug_remove busname devname = do
    ret ← call d (Dpdk.eal_hotplug_remove busname devname)
    pure (map_ok (λ _. tt) (as_result ret))

abbrev pub EventCallback : Type 0 → Type 0 → Type 0
EventCallback T R = List ℕ → Option Event → Option T → R

module _ {T R : Type 0} where
  -- `event_stub`, with the name of the device and the event as it is transmuted. A name that is no
  -- UTF-8, where `unwrap` panics, is left out.
  unfoldable pub event_stub :
      ℕ
      → List ℕ × ℕ
      → Contexts (EventCallback T R) (Option T)
      → Option (R × Contexts (EventCallback T R) (Option T))
  unfolding stub event_from
  event_stub = stub (λ callback arg x. callback x.0 (event_from x.1) arg)

  module _ (d : Dpdk) where
    -- `event_callback_register`, with the boxes of the callbacks.
    unfoldable pub event_callback_register :
        List ℕ
        → EventCallback T R
        → Option T
        → Contexts (EventCallback T R) (Option T)
        → M (Result (Unit {0}) × Contexts (EventCallback T R) (Option T))
    unfolding into_raw as_result
    event_callback_register devname callback arg boxes =
        let (p, after) = into_raw (record { callback = callback; arg = arg }) boxes in
        do
          ret ← call d (Dpdk.dev_event_callback_register devname p)
          pure (map_ok (λ _. tt) (as_result ret), after)

    -- Registering boxes the callback whatever DPDK answers: the box of a refused one stays, and no one
    -- holds its pointer.
    pub register_boxes :
        (devname : List ℕ) (callback : EventCallback T R) (arg : Option T)
        (boxes : Contexts (EventCallback T R) (Option T)) (h : History)
        → event_callback_register devname callback arg boxes h ≡ (
          done (
            map_ok
                (λ _. tt)
                (as_result (d.ret h (Dpdk.dev_event_callback_register devname (length boxes)))),
            boxes ++ some (record { callback = callback; arg = arg }) ∷ [],
          ),
          h ++ Dpdk.dev_event_callback_register devname (length boxes) ∷ [],
        )
    unfolding event_callback_register into_raw
    register_boxes devname callback arg boxes h = refl

  -- A registered callback gets its first event, and is used after it has been freed at the second one.
  pub event_heard_once :
      (c : CallbackContext (EventCallback T R) (Option T)) (x y : List ℕ × ℕ)
      (xs : List (List ℕ × ℕ)) (boxes : Contexts (EventCallback T R) (Option T))
      → (handed event_stub c (x ∷ []) boxes
          ≡ some (c.callback x.0 (event_from x.1) c.arg ∷ [], boxes ++ none ∷ []))
        × (handed event_stub c (x ∷ y ∷ xs) boxes ≡ none)
  unfolding event_stub
  event_heard_once c x y xs boxes = (
    handed-one (λ f a z. f z.0 (event_from z.1) a) c x boxes,
    handed-more (λ f a z. f z.0 (event_from z.1) a) c x y xs boxes,
  )
