-- ===== src/Monitor/Cycles.antt =====
-- What one measurement gives.
use lockless_concurrent_fram.Common.{ℕ, ◌+◌, ◌%◌, ◌<◌, ◌≡◌, refl, false, some, arith}
use lockless_concurrent_fram.Common.Words.{sub64, word32, word64}
use lockless_concurrent_fram.Monitor.{
  read_tsc, Monitor, start_profiling, stop_profiling, get_result, print_report, cycles_per_op,
  ops_per_second,
}

-- When the time stamp counter, which wraps at 2 ^ 64, goes on by `cycles` below 2 ^ 64 and the
-- clock by `ticks` above 0 and below 2 ^ 63 between start_profiling and stop_profiling, for some
-- operations: print_report prints the operations, just these cycles and ticks, and the two
-- quotients of them, and profiling is over.
measured :
    (m : Monitor) (now hi lo hi' lo' operations cycles ticks : ℕ)
    → hi < word32
    → lo < word32
    → now < word64
    → 0 < operations
    → 0 < ticks
    → ticks < 0x8000_0000_0000_0000
    → cycles < word64
    → read_tsc hi' lo' ≡ (read_tsc hi lo + cycles) % word64
    → let m' =
        stop_profiling
          (start_profiling m now (read_tsc hi lo))
          operations
          (read_tsc hi' lo')
          ((now + ticks) % word64) in
      (m'.profiling ≡ false)
      × (print_report m' ≡ record {
        operations = operations;
        total_cycles = cycles;
        time_elapsed = ticks;
        cycles_per_op = some (cycles, operations);
        throughput = some (operations, ticks);
      })
unfolding print_report get_result cycles_per_op ops_per_second start_profiling stop_profiling
measured m now hi lo hi' lo' operations cycles ticks in_hi in_lo in_now some_ops some_ticks in_ticks
      in_cycles later =
    let spent : sub64 (read_tsc hi' lo') (read_tsc hi lo) ≡ cycles =
      omega (arith, later, in_hi, in_lo, in_cycles) in
    let passed : sub64 ((now + ticks) % word64) now ≡ ticks = omega (arith, in_now, in_ticks) in
    (
      refl,
      rw (spent, passed, print_report, get_result, cycles_per_op, ops_per_second)
          (ground (arith, some_ops, some_ticks, in_ticks)),
    )
