-- ===== src/Examples/Ethtool.antt =====
-- rte/examples/ethtool/main.rs: the loop of `slave_main` over one port, whose frames go through
-- `buf_frames`. A frame is a number; what `process_frame` writes into it is left out.
pub mod Queue
pub mod Commands
pub mod Listings
pub mod Main
pub mod Prompt
pub mod Session
pub mod Ports
use rust_dpdk.Prelude.{
  ℕ, zero, suc, ◌+◌, ◌-◌, ◌≤◌, ◌≡◌, List, [], ◌∷◌, ◌++◌, Option, none, some, Bool, true, false,
  ◌||◌, ltb, ◌==◌, if◌then◌else◌, length, set, get_elem?, take, map,
}

-- `TxQueuePort`.
pub record TxQueuePort : Type 0 where
  pub cnt_unsent : ℕ
  pub buf_frames : List (Option ℕ)

-- What DPDK does in one round: the frames that it receives, and how many it sends of those that it is
-- given. Neither is more than it is given room for.
pub record Burst : Type 0 where
  pub received : List ℕ
  pub cnt_sent : ℕ

-- The received frames, written from `i` on; those behind the end of the buffer are lost.
unfoldable pub put_frames : ℕ → List ℕ → List (Option ℕ) → List (Option ℕ)
put_frames i [] buf = buf
put_frames i (f ∷ fs) buf = put_frames (i + 1) fs (set buf i (some f))

-- `buf[i - cnt_sent] = buf[i].take()` for `n` values of `i` from `i` on: the place `i` is emptied, and
-- then the place in front is written.
unfoldable pub shift : ℕ → ℕ → ℕ → List (Option ℕ) → List (Option ℕ)
shift zero i cnt_sent buf = buf
shift (suc n) i cnt_sent buf = elim (get_elem? buf i) [
  | none ↦ buf
  | some frame ↦ shift n (i + 1) cnt_sent (set (set buf i none) (i - cnt_sent) frame)
]

-- The room that `rx_burst` is given.
unfoldable pub room : TxQueuePort → ℕ
room q = length q.buf_frames - q.cnt_unsent

unfoldable pub receive : Burst → TxQueuePort → TxQueuePort
unfolding put_frames room
receive b q =
    let fs = take (room q) b.received in
    record {
      cnt_unsent = q.cnt_unsent + length fs;
      buf_frames = put_frames q.cnt_unsent fs q.buf_frames;
    }

-- What `tx_burst` is given.
unfoldable pub outgoing : TxQueuePort → List (Option ℕ)
outgoing q = take q.cnt_unsent q.buf_frames

-- The sending part: the source does not change `cnt_unsent` here.
unfoldable pub send : Burst → TxQueuePort → TxQueuePort
unfolding shift
send b q = if q.cnt_unsent == 0 then q else record {
  cnt_unsent = q.cnt_unsent;
  buf_frames = shift (q.cnt_unsent - b.cnt_sent) b.cnt_sent b.cnt_sent q.buf_frames;
}

-- One round for an active port: the queue behind it, and what it gave to `tx_burst`.
unfoldable pub round : Burst → TxQueuePort → TxQueuePort × List (Option ℕ)
unfolding receive send outgoing
round b q = let q' = receive b q in (send b q', outgoing q')

unfoldable pub rounds : List Burst → TxQueuePort → TxQueuePort
unfolding round
rounds [] q = q
rounds (b ∷ bs) q = rounds bs (round b q).0
