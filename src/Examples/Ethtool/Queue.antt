-- ===== src/Examples/Ethtool/Queue.antt =====
-- The queue of unsent frames in `slave_main` of rte/examples/ethtool/main.rs.
use rust_dpdk.Prelude.{
  ℕ, zero, suc, ◌+◌, ◌-◌, ◌≤◌, ◌≡◌, List, [], ◌∷◌, Option, none, some, ◌==◌, length, set, get_elem?,
  take, length-set, arith, refl, ◌∙◌, Option-cases, Bool-cases, inl, inr, ap,
}
use rust_dpdk.Examples.Ethtool.{
  TxQueuePort, Burst, put_frames, shift, room, receive, send, outgoing, round, rounds,
}

length-put_frames :
    (i : ℕ) (fs : List ℕ) (buf : List (Option ℕ)) → length (put_frames i fs buf) ≡ length buf
unfolding put_frames
length-put_frames i [] buf = refl
length-put_frames i (f ∷ fs) buf =
    length-put_frames (i + 1) fs (set buf i (some f)) ∙ length-set buf i (some f)

length-shift :
    (n i cnt_sent : ℕ) (buf : List (Option ℕ)) → length (shift n i cnt_sent buf) ≡ length buf
unfolding shift
length-shift zero i cnt_sent buf = refl
length-shift (suc n) i cnt_sent buf = elim (Option-cases (get_elem? buf i)) [
  | inl past ↦ ground (arith, past)
  | inr (frame, here) ↦ ground (
    arith,
    here,
    length-shift n (i + 1) cnt_sent (set (set buf i none) (i - cnt_sent) frame),
    length-set (set buf i none) (i - cnt_sent) frame,
    length-set buf i none,
  )
]

length-take : {A : Type 0} (n : ℕ) (xs : List A) → length (take n xs) ≤ n
length-take zero xs = omega arith
length-take (suc n) [] = omega arith
length-take (suc n) (x ∷ xs) = omega (arith, length-take n xs)

-- The buffer keeps its size, the count fits it, and the count is at least `least`.
record Held (least size : ℕ) (q : TxQueuePort) : Type 0 where
  at_least : least ≤ q.cnt_unsent
  fits : q.cnt_unsent ≤ size
  size_kept : length q.buf_frames ≡ size

cnt_unsent-send : (b : Burst) (q : TxQueuePort) → (send b q).cnt_unsent ≡ q.cnt_unsent
unfolding send
cnt_unsent-send b q = elim (Bool-cases (q.cnt_unsent == 0)) [
  | inl empty ↦ ground (arith, empty)
  | inr some_left ↦ ground (arith, some_left)
]

length-send : (b : Burst) (q : TxQueuePort) → length (send b q).buf_frames ≡ length q.buf_frames
unfolding send
length-send b q = elim (Bool-cases (q.cnt_unsent == 0)) [
  | inl empty ↦ ground (arith, empty)
  | inr some_left ↦ ground (
    arith,
    some_left,
    length-shift (q.cnt_unsent - b.cnt_sent) b.cnt_sent b.cnt_sent q.buf_frames,
  )
]

receive-Held :
    (b : Burst) (q : TxQueuePort) (least size : ℕ)
    → Held least size q
    → Held least size (receive b q)
unfolding receive room
receive-Held b q least size held =
    let fs = take (length q.buf_frames - q.cnt_unsent) b.received in
    record {
      at_least = omega (arith, held.at_least);
      fits = omega (
        arith,
        held.fits,
        held.size_kept,
        length-take (length q.buf_frames - q.cnt_unsent) b.received,
      );
      size_kept = length-put_frames q.cnt_unsent fs q.buf_frames ∙ held.size_kept;
    }

round-Held :
    (b : Burst) (q : TxQueuePort) (least size : ℕ)
    → Held least size q
    → Held least size (round b q).0
unfolding round
round-Held b q least size held =
    let after = receive-Held b q least size held in
    record {
      at_least = omega (arith, after.at_least, cnt_unsent-send b (receive b q));
      fits = omega (arith, after.fits, cnt_unsent-send b (receive b q));
      size_kept = length-send b (receive b q) ∙ after.size_kept;
    }

rounds-Held :
    (bs : List Burst) (q : TxQueuePort) (least size : ℕ)
    → Held least size q
    → Held least size (rounds bs q)
unfolding rounds
rounds-Held [] q least size held = held
rounds-Held (b ∷ bs) q least size held =
    rounds-Held bs (round b q).0 least size (round-Held b q least size held)

take-nil : {A : Type 0} (n : ℕ) → take {A = A} n [] ≡ []
take-nil zero = refl
take-nil (suc n) = refl

shift_none : (n i cnt_sent : ℕ) (buf : List (Option ℕ)) → n ≡ 0 → shift n i cnt_sent buf ≡ buf
unfolding shift
shift_none zero i cnt_sent buf h = refl
shift_none (suc n) i cnt_sent buf h = absurd (omega (arith, h))

send_all : (b : Burst) (q : TxQueuePort) → q.cnt_unsent ≡ b.cnt_sent → send b q ≡ q
unfolding send
send_all b q e = elim (Bool-cases (q.cnt_unsent == 0)) [
  | inl empty ↦ ground (arith, empty)
  | inr some_left ↦ ground (
    arith,
    some_left,
    shift_none (q.cnt_unsent - b.cnt_sent) b.cnt_sent b.cnt_sent q.buf_frames (omega (arith, e)),
  )
]

-- However many rounds there are, and whatever is received and sent in them: the count of unsent frames
-- never goes down, it stays within the buffer, and the buffer keeps its size.
pub rounds_never_drain :
    (bs : List Burst) (q : TxQueuePort)
    → q.cnt_unsent ≤ length q.buf_frames
    → (q.cnt_unsent ≤ (rounds bs q).cnt_unsent)
      × ((rounds bs q).cnt_unsent ≤ length q.buf_frames)
      × (length (rounds bs q).buf_frames ≡ length q.buf_frames)
rounds_never_drain bs q fits =
    let start : Held q.cnt_unsent (length q.buf_frames) q = record {
      at_least = omega arith;
      fits = fits;
      size_kept = refl;
    } in
    let held = rounds-Held bs q q.cnt_unsent (length q.buf_frames) start in
    (held.at_least, held.fits, held.size_kept)

receive_nothing :
    (n : ℕ) (q : TxQueuePort)
    → outgoing (receive (record { received = []; cnt_sent = n }) q) ≡ outgoing q
unfolding receive outgoing put_frames
receive_nothing n q = ground (arith, take-nil {A = ℕ} (room q))

-- A round that sends every frame leaves them all in the buffer: a following round in which nothing is
-- received gives the same frames to DPDK again.
pub sent_again :
    (q : TxQueuePort) (received : List ℕ) (cnt : ℕ)
    → (receive (record { received = received; cnt_sent = 0 }) q).cnt_unsent ≡ cnt
    → (round
        (record { received = []; cnt_sent = 0 })
        (round (record { received = received; cnt_sent = cnt }) q).0).1
      ≡ (round (record { received = received; cnt_sent = cnt }) q).1
unfolding round receive outgoing put_frames
sent_again q received cnt e =
    let q' = receive (record { received = received; cnt_sent = cnt }) q in
    let kept = send_all (record { received = received; cnt_sent = cnt }) q' e in
    ap (λ (r : TxQueuePort). outgoing (receive (record { received = []; cnt_sent = 0 }) r)) kept
    ∙ receive_nothing 0 q'
