-- ===== src/Monitor.antt =====
-- include/lockless/performance_monitor.hpp: PerformanceMonitor and ProfileResult. What the clock and
-- the time stamp counter say are arguments of the calls that read them. Doubles are not modelled: the
-- seconds are kept as the ticks between two readings of the clock, and a quotient as its two parts.
pub mod Cycles
use lockless_concurrent_fram.Common.{
  ℕ, ◌+◌, ◌*◌, ◌%◌, Bool, true, false, not, ◌&&◌, Option, none, some, ltb, if◌then◌else◌,
}
use lockless_concurrent_fram.Common.Words.{sub64, word32, is_negative}

-- `read_tsc`, from the two halves that rdtsc leaves in registers.
abbrev pub read_tsc : ℕ → ℕ → ℕ
read_tsc hi lo = hi * word32 + lo

pub record ProfileResult : Type 0 where
  pub cycles : ℕ
  pub ticks : ℕ
  pub operations : ℕ

-- The quotients, whose value is 0.0 where there is none.
pub cycles_per_op : ProfileResult → Option (ℕ × ℕ)
cycles_per_op r = if ltb 0 r.operations then some (r.cycles, r.operations) else none

pub ops_per_second : ProfileResult → Option (ℕ × ℕ)
ops_per_second r =
    if ltb 0 r.ticks && not (is_negative r.ticks) then some (r.operations, r.ticks) else none

-- The members of `PerformanceMonitor`.
pub record Monitor : Type 0 where
  pub start_cycles : ℕ
  pub end_cycles : ℕ
  pub start_time : ℕ
  pub end_time : ℕ
  pub operation_count : ℕ
  pub profiling : Bool

-- The constructor; a time point starts at the epoch of its clock.
abbrev pub init : Monitor
init = record {
  start_cycles = 0;
  end_cycles = 0;
  start_time = 0;
  end_time = 0;
  operation_count = 0;
  profiling = false;
}

pub start_profiling : Monitor → ℕ → ℕ → Monitor
start_profiling m now cycles = record m {
  profiling = true;
  start_time = now;
  start_cycles = cycles;
}

pub stop_profiling : Monitor → ℕ → ℕ → ℕ → Monitor
stop_profiling m operations cycles now = record m {
  end_cycles = cycles;
  end_time = now;
  operation_count = operations;
  profiling = false;
}

-- `get_result`. The clock counts in a signed word: a difference is a pattern of 64 bits too.
pub get_result : Monitor → ProfileResult
get_result m = record {
  cycles = sub64 m.end_cycles m.start_cycles;
  ticks = sub64 m.end_time m.start_time;
  operations = m.operation_count;
}

-- The numbers that print_report prints, in order.
pub record Report : Type 0 where
  pub operations : ℕ
  pub total_cycles : ℕ
  pub time_elapsed : ℕ
  pub cycles_per_op : Option (ℕ × ℕ)
  pub throughput : Option (ℕ × ℕ)

pub print_report : Monitor → Report
print_report m =
    let result = get_result m in
    record {
      operations = result.operations;
      total_cycles = result.cycles;
      time_elapsed = result.ticks;
      cycles_per_op = cycles_per_op result;
      throughput = ops_per_second result;
    }
