-- ===== src/Examples/L2fwd/Options.antt =====
-- `parse_args` of rte/examples/l2fwd/main.rs.
use rust_dpdk.Prelude.{
  ℕ, ◌*◌, ◌^◌, ◌≤◌, ◌<◌, List, Option, none, some, Bool, true, false, not, ◌&&◌, ◌≡◌, arith, ltb,
  ◌==◌, if◌then◌else◌, negsuc,
}
use rust_dpdk.Text.Radix.{from_str_radix, from_str_radix-le-max, u32_max}
use rust_dpdk.Outcome.{Outcome, done, halted, exited, ◌>>=◌}

abbrev pub max_rx_queue_per_lcore : ℕ
max_rx_queue_per_lcore = 16

abbrev pub max_timer_period : ℕ
max_timer_period = 86400

abbrev pub timer_millisecond : ℕ
timer_millisecond = 2000000

-- What the `getopts` crate makes of the command line.
pub record Matches : Type 0 where
  pub help : Bool
  pub p : Option (List ℕ)
  pub q : Option (List ℕ)
  pub period : Option (List ℕ)

pub record Options : Type 0 where
  pub enabled_port_mask : ℕ
  pub rx_queue_per_lcore : ℕ
  pub timer_period_seconds : ℕ

-- `print_usage` ends the process.
abbrev pub print_usage {ℓ} : {A : Type ℓ} → Outcome A
print_usage = halted (exited (negsuc 0))

-- A number that has been read is taken if it passes its guard.
guarded : Option ℕ → (ℕ → Bool) → Outcome ℕ
guarded none guard = print_usage
guarded (some n) guard = if guard n then done n else print_usage

parse_mask : Option (List ℕ) → Outcome ℕ
unfolding guarded
parse_mask none = done 0
parse_mask (some arg) = guarded (from_str_radix 16 u32_max arg) (λ mask. not (mask == 0))

parse_queues : Option (List ℕ) → Outcome ℕ
unfolding guarded
parse_queues none = done 1
parse_queues (some arg) =
    guarded (from_str_radix 10 u32_max arg) (λ n. ltb 0 n && ltb n max_rx_queue_per_lcore)

parse_period : Option (List ℕ) → Outcome ℕ
unfolding guarded
parse_period none = done 10
parse_period (some arg) =
    guarded (from_str_radix 10 u32_max arg) (λ t. ltb 0 t && ltb t max_timer_period)

with_matches : Matches → Outcome Options
unfolding parse_mask parse_queues parse_period
with_matches m = do
  mask ← parse_mask m.p
  queues ← parse_queues m.q
  seconds ← parse_period m.period
  done (record {
    enabled_port_mask = mask;
    rx_queue_per_lcore = queues;
    timer_period_seconds = seconds;
  })

-- `parse_args`; `none` is a refusal of `getopts`.
unfoldable pub parse_args : Option Matches → Outcome Options
unfolding with_matches
parse_args none = print_usage
parse_args (some m) = if m.help then print_usage else with_matches m

-- `timer_period_seconds as i64 * TIMER_MILLISECOND * 1000`.
unfoldable pub timer_period : Options → ℕ
timer_period o = o.timer_period_seconds * timer_millisecond * 1000

module _ {n : ℕ} where
  guarded-done :
      (o : Option ℕ) (guard : ℕ → Bool) → guarded o guard ≡ done n → (o ≡ some n) × (guard n ≡ true)
  unfolding guarded
  guarded-done none guard h = absurd (ground arith)
  guarded-done (some m) guard h = ground arith

  parse_mask-le : (a : Option (List ℕ)) → parse_mask a ≡ done n → n ≤ u32_max
  unfolding parse_mask
  parse_mask-le none h = ground arith
  parse_mask-le (some a) h =
      from_str_radix-le-max 16 u32_max a {n = n}
        ((guarded-done (from_str_radix 16 u32_max a) (λ mask. not (mask == 0)) h).0)

  parse_queues-range :
      (a : Option (List ℕ)) → parse_queues a ≡ done n → (1 ≤ n) × (n < max_rx_queue_per_lcore)
  unfolding parse_queues
  parse_queues-range none h = ground arith
  parse_queues-range (some a) h = ground (
    arith,
    guarded-done (from_str_radix 10 u32_max a) (λ n. ltb 0 n && ltb n max_rx_queue_per_lcore) h,
  )

  parse_period-range :
      (a : Option (List ℕ)) → parse_period a ≡ done n → (1 ≤ n) × (n < max_timer_period)
  unfolding parse_period
  parse_period-range none h = ground arith
  parse_period-range (some a) h =
      ground (
        arith,
        guarded-done (from_str_radix 10 u32_max a) (λ t. ltb 0 t && ltb t max_timer_period) h,
      )

-- Whatever the command line, the options that are accepted are in range: the mask fits 32 bits, there
-- are 1 to 15 queues, the period is 1 to 86399 seconds, and the timer period fits an `i64`.
pub parse_args_ranges :
    (m : Option Matches) {o : Options}
    → parse_args m ≡ done o
    → (o.enabled_port_mask ≤ u32_max)
      × (1 ≤ o.rx_queue_per_lcore)
      × (o.rx_queue_per_lcore < max_rx_queue_per_lcore)
      × (1 ≤ o.timer_period_seconds)
      × (o.timer_period_seconds < max_timer_period)
      × (timer_period o < 2 ^ 63)
unfolding parse_args timer_period with_matches
parse_args_ranges none h = absurd (ground arith)
parse_args_ranges (some m) {o} h = ground (
  arith,
  parse_mask-le {n = o.enabled_port_mask} m.p,
  parse_queues-range {n = o.rx_queue_per_lcore} m.q,
  parse_period-range {n = o.timer_period_seconds} m.period,
)

-- A period of 0 seconds or of a day or more ends the process, whatever the other options are.
pub parse_args_period :
    (m : Matches) (arg : List ℕ) (t : ℕ)
    → m.period ≡ some arg
    → from_str_radix 10 u32_max arg ≡ some t
    → ltb 0 t && ltb t max_timer_period ≡ false
    → parse_args (some m) ≡ print_usage
unfolding parse_args
parse_args_period m arg t e r h = ground arith
