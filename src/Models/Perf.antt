-- ===== src/Models/Perf.antt =====
-- models.py: what the performance service returns. Rates and latencies are whole numbers, and the
-- latencies stay in nanoseconds, where the source divides them by 1000.0.
use telemetryd.Base.{ℕ, ℤ, Bool, List, Option, Text}

pub record QueuePerf : Type 0 where
  pub qid : ℤ
  pub iops : ℕ
  pub read_iops : ℕ
  pub write_iops : ℕ
  pub bandwidth_bytes_per_sec : ℕ
  -- the sum and the number of which the average is taken; 0 and 0 without a sample
  pub avg_latency_ns : ℕ × ℕ
  pub p50_latency_ns : ℕ
  pub p95_latency_ns : ℕ
  pub p99_latency_ns : ℕ
  pub p999_latency_ns : ℕ

pub record DevicePerf : Type 0 where
  pub device : Text
  pub queues : List QueuePerf
  pub available : Bool
  pub error : Option Text
  pub aggregate : Option QueuePerf
