-- ===== src/Cycles.antt =====
-- The waits of rte/src/common/cycles.rs, in the `u32` arithmetic of the source: a cast cuts, and a sum or
-- product that does not fit panics in a build with overflow checks, as debug builds are, and wraps around
-- in one without.
use rust_dpdk.Prelude.{
  ℕ, ◌≡◌, ◌<◌, ◌+◌, ◌*◌, ◌/◌, ◌%◌, ◌^◌, [], ◌∷◌, ◌++◌, ltb, Bool, Bool-cases, inl, inr,
  if◌then◌else◌, arith,
}
use rust_dpdk.Outcome.{Outcome, done, halted, panicked}
use rust_dpdk.Dpdk
use rust_dpdk.Dpdk.{Dpdk, History, M, lift, run, ◌>>=◌}

-- `std::time::Duration`: whole seconds, and the rest in nanoseconds.
pub record Duration : Type 0 where
  pub secs : ℕ
  pub nanos : ℕ

unfoldable pub subsec_micros : Duration → ℕ
subsec_micros t = t.nanos / 1000

-- The whole microseconds of a duration, as a number without a bound.
unfoldable pub as_micros : Duration → ℕ
as_micros t = t.secs * 1000000 + t.nanos / 1000

-- A product or sum of `u32`, of which `n` is the exact value.
unfoldable pub u32_result : Bool → ℕ → Outcome ℕ
u32_result checks n =
    if ltb n (2 ^ 32) then done n else if checks then halted panicked else done (n % 2 ^ 32)

module _ (d : Dpdk) where
  unfoldable pub delay_us : ℕ → M (Unit {0})
  delay_us us = run d (Dpdk.delay_us us)

  module _ (checks : Bool) where
    unfoldable pub delay_ms : ℕ → M (Unit {0})
    unfolding delay_us u32_result
    delay_ms ms = do us ← lift (u32_result checks (ms * 1000)); delay_us us

    unfoldable pub delay : Duration → M (Unit {0})
    unfolding delay_us subsec_micros u32_result
    delay t = do
      s ← lift (u32_result checks (t.secs % 2 ^ 32 * 1000000))
      us ← lift (u32_result checks (s + subsec_micros t))
      delay_us us

    -- Of a duration of fewer than 2 ^ 32 seconds, `delay` waits exactly for its whole microseconds where
    -- these fit in 32 bits, which is up to an hour and eleven minutes. For any longer one it panics
    -- without a call in a build with overflow checks, and waits for the rest of the microseconds modulo
    -- 2 ^ 32 in one without.
    pub delay-exact :
        (t : Duration) (h : History)
        → t.secs < 2 ^ 32
        → delay t h ≡ (
            if ltb (as_micros t) (2 ^ 32)
            then (done tt, h ++ Dpdk.delay_us (as_micros t) ∷ [])
            else if checks
            then (halted panicked, h)
            else (done tt, h ++ Dpdk.delay_us (as_micros t % 2 ^ 32) ∷ []))
    unfolding delay as_micros delay_us subsec_micros u32_result
    delay-exact t h small = elim (Bool-cases checks) [
      | inl debug ↦ ground (arith, debug)
      | inr release ↦ ground (arith, release)
    ]

    -- The cast cuts the seconds: 2 ^ 32 of them, with less than a second more, are waited for as that
    -- part of a second alone.
    pub delay-cut :
        (nanos : ℕ) (h : History)
        → nanos < 1000000000
        → delay (record { secs = 2 ^ 32; nanos = nanos }) h
          ≡ (done tt, h ++ Dpdk.delay_us (nanos / 1000) ∷ [])
    unfolding delay delay_us subsec_micros u32_result
    delay-cut nanos h small = ground arith
