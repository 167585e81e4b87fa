-- ===== src/Keepalive.antt =====
-- rte/src/common/keepalive.rs: the states of watched cores, and the boxed callbacks. A core is its
-- number.
pub mod Calls
use rust_dpdk.Prelude.{ℕ, ◌≡◌, List, [], ◌∷◌, ◌++◌, Option, none, some, get_elem?, refl}
use rust_dpdk.Utils.Callbacks.{CallbackContext, Contexts, stub, handed, handed-one, handed-more}

pub data State : Type 0 where
  unused alive dead gone missing dozing sleep : State

-- `RTE_KA_STATE_UNUSED` to `RTE_KA_STATE_SLEEP` of rte-sys/src/raw.rs.
unfoldable pub state_number : State → ℕ
state_number unused = 0
state_number alive = 1
state_number dead = 2
state_number gone = 3
state_number missing = 4
state_number dozing = 5
state_number sleep = 6

-- The transmutation of a `u32`; another number is no value of the type.
unfoldable pub state_from : ℕ → Option State
state_from n = get_elem? (unused ∷ alive ∷ dead ∷ gone ∷ missing ∷ dozing ∷ sleep ∷ []) n

-- A state is read back from its number.
pub state_from-state_number : (s : State) → state_from (state_number s) ≡ some s
unfolding state_from state_number
state_from-state_number unused = refl
state_from-state_number alive = refl
state_from-state_number dead = refl
state_from-state_number gone = refl
state_from-state_number missing = refl
state_from-state_number dozing = refl
state_from-state_number sleep = refl

module _ {T R : Type 0} where
  -- `failure_stub`, with the core that has failed.
  unfoldable pub failure_stub :
      ℕ
      → ℕ
      → Contexts (Option T → ℕ → R) (Option T)
      → Option (R × Contexts (Option T → ℕ → R) (Option T))
  unfolding stub
  failure_stub = stub (λ callback arg core. callback arg core)

  -- `relay_stub`, with the core, its state as it is transmuted, and when it was seen last.
  unfoldable pub relay_stub :
      ℕ
      → ℕ × ℕ × ℕ
      → Contexts (Option T → ℕ → Option State → ℕ → R) (Option T)
      → Option (R × Contexts (Option T → ℕ → Option State → ℕ → R) (Option T))
  unfolding stub state_from
  relay_stub = stub (λ callback arg x. callback arg x.0 (state_from x.1) x.2)

  -- The first core that fails is reported; at the second one the callback is used after it has been
  -- freed. The same goes for the second state that is relayed.
  pub reports_once :
      (c : CallbackContext (Option T → ℕ → R) (Option T))
      (relay : CallbackContext (Option T → ℕ → Option State → ℕ → R) (Option T)) (core next : ℕ)
      (cores : List ℕ) (x y : ℕ × ℕ × ℕ) (xs : List (ℕ × ℕ × ℕ))
      (boxes : Contexts (Option T → ℕ → R) (Option T))
      (relay_boxes : Contexts (Option T → ℕ → Option State → ℕ → R) (Option T))
      → (handed failure_stub c (core ∷ []) boxes
          ≡ some (c.callback c.arg core ∷ [], boxes ++ none ∷ []))
        × (handed failure_stub c (core ∷ next ∷ cores) boxes ≡ none)
        × (handed relay_stub relay (x ∷ y ∷ xs) relay_boxes ≡ none)
  unfolding failure_stub relay_stub
  reports_once c relay core next cores x y xs boxes relay_boxes = (
    handed-one (λ f a n. f a n) c core boxes,
    handed-more (λ f a n. f a n) c core next cores boxes,
    handed-more (λ f a z. f a z.0 (state_from z.1) z.2) relay x y xs relay_boxes,
  )
