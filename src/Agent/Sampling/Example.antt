-- ===== src/Agent/Sampling/Example.antt =====
-- Data of the tests: an agent with four processors, and a round of two seconds.
use lmonitor.Base.Decimal.{to_string}
use lmonitor.Base.Number.{signed_to_string}
use lmonitor.Serializer.Writer.{serialize}
use lmonitor.FrameCodec.{max_frame_size, write_header}
use lmonitor.FrameCodec.RoundTrip.{frame}
use lmonitor.Agent.Sending.{taken}
use lmonitor.Base.{ℕ, ◌≤◌, length, leb, true, arith, ◌≡◌, refl, List, [], ◌∷◌, some, none, ok}
use lmonitor.Base.Text.{codes}
use lmonitor.Sample.{whole, host_a, metrics_of}
use lmonitor.Model.{SystemMetrics}
use lmonitor.Collector.Cpu.{CpuTimes, total, idle_time, calculate_usage}
use lmonitor.Collector.Network.{calculate_rate}
use lmonitor.Collector.Process as Process
use lmonitor.Collector.Process.{ProcessSnapshot}
use lmonitor.Collector.Process.Example.{before, now, place_all}
use lmonitor.Collector.Host.{used_kb, memory_percent, disk_percent}
use lmonitor.Agent.{Retry, accepted, interrupted}
use lmonitor.Agent.Sampling.{MonitorAgent, Snapshot, Round, measure, metrics_with, build_metrics}

abbrev pub monitor : MonitorAgent ℕ
monitor = record { network_interface = codes "eth0"; cpu_count = 4; interval_seconds = 2 }

abbrev times : ℕ → ℕ → CpuTimes
times user idle = record {
  user = user;
  nice = 0;
  system = 0;
  idle = idle;
  iowait = 0;
  irq = 0;
  softirq = 0;
  steal = 0;
}

abbrev pub reading : ℕ → ℕ → ℕ → List ProcessSnapshot → Snapshot
reading user idle now processes = record {
  cpu = times user idle;
  network = record { interface_name = codes "eth0"; rx_bytes = 5; tx_bytes = 6 };
  network_time = now;
  processes = processes;
}

abbrev pub first : Snapshot
first = reading 0 0 0 []

-- The reading is the current one of the round; `send` takes the frame in two pieces.
abbrev pub round_with : Snapshot → Round ℕ
round_with current = record {
  current = current;
  memory = record { total_kb = 1000; available_kb = 600 };
  load = record { load1 = 1; load5 = 2; load15 = 3 };
  system = record { hostname = host_a; uptime_seconds = 1 };
  disk = record { mount_point = codes "/"; total_bytes = 10; used_bytes = 4; available_bytes = 6 };
  reconnect_now = 2_000_000_000;
  attempt = none;
  answers = accepted 100 ∷ interrupted ∷ accepted 1_000_000 ∷ [];
  failed_at = 2_000_000_000;
}

abbrev pub quiet : Round ℕ
quiet = round_with (reading 3 1 2_000_000_000 [])

abbrev pub connected : Retry
connected = record {
  client = record { socket_fd = some 7 };
  reconnect_delay = 1;
  next_reconnect_time = 0;
}

abbrev pub quiet_metrics : SystemMetrics ℕ
quiet_metrics = metrics_of host_a 75 40 40

pub quiet-metrics : measure whole place_all monitor first quiet ≡ ok quiet_metrics
unfolding measure metrics_with build_metrics calculate_usage total idle_time calculate_rate used_kb
    memory_percent disk_percent Process.calculate_usage Process.usages Process.by_pid place_all
quiet-metrics = refl

-- The samples of the processes stand in two readings.
abbrev pub busy_before : Snapshot
busy_before = reading 0 0 0 before

abbrev pub busy : Round ℕ
busy = round_with (reading 3 1 2_000_000_000 now)

abbrev pub busy_metrics : SystemMetrics ℕ
busy_metrics =
    metrics_with whole place_all monitor busy_before busy
      (record { rx_bytes_per_second = 0; tx_bytes_per_second = 0 })

pub busy-metrics : measure whole place_all monitor busy_before busy ≡ ok busy_metrics
unfolding measure calculate_rate
busy-metrics = refl

fits : (n m : ℕ) → leb n m ≡ true → n ≤ m
fits n m h = ground arith

pub quiet-length : length (serialize whole quiet_metrics) ≤ max_frame_size
unfolding serialize to_string signed_to_string
quiet-length = fits (length (serialize whole quiet_metrics)) max_frame_size refl

pub quiet-frame : length (frame (serialize whole quiet_metrics)) ≤ taken quiet.answers
unfolding serialize to_string signed_to_string write_header
quiet-frame = fits (length (frame (serialize whole quiet_metrics))) (taken quiet.answers) refl
