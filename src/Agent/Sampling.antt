-- ===== src/Agent/Sampling.antt =====
-- The samples of an agent: the constructor, `buildMetrics` and the loop of `run` in
-- src/agent/MonitorAgent.cpp. What the collectors return in each round is an argument.
pub mod Top
pub mod Stream
pub mod Example
mod Tests
use lmonitor.Base.{
  ℕ, ◌+◌, ◌-◌, ◌||◌, List, [], ◌∷◌, ◌++◌, map, Option, none, some, Result, ok, err, Bool, true,
  false, ◌>>=◌, if◌then◌else◌, ◌==◌, take, leb,
}
use lmonitor.Base.Text.{Bytes}
use lmonitor.Base.Number.{ℤ, pos, negsuc}
use lmonitor.Float.{Float}
use lmonitor.Model.{SystemMetrics, ProcessMetric}
use lmonitor.Collector.Cpu as Cpu
use lmonitor.Collector.Cpu.{CpuTimes, difference}
use lmonitor.Collector.Network.{NetworkStats, NetworkRate, NetworkError, calculate_rate}
use lmonitor.Collector.Process as Process
use lmonitor.Collector.Process.{ProcessSnapshot, ProcessInfo}
use lmonitor.Collector.Host.{
  MemoryInfo, used_kb, memory_percent, LoadInfo, SystemInfo, DiskInfo, disk_percent,
}
use lmonitor.Serializer.Writer.{serialize}
use lmonitor.FrameCodec.{FrameError, encode}
use lmonitor.Agent.{Sent, Retry, reconnect, transmit, ticks_per_second}

pub data AgentError : Type 0 where
  no_interface no_cpu_count bad_interval not_collected : AgentError
  network : NetworkError → AgentError
  frame : FrameError → AgentError

pub record MonitorAgent (D : Type 0) : Type 0 where
  pub network_interface : Bytes
  pub cpu_count : ℕ
  pub interval_seconds : D

abbrev pub positive : ℤ → Option ℕ
positive (pos n) = if n == 0 then none else some n
positive (negsuc n) = none

-- The arguments are what `detectDefaultInterface` returns, `none` if it throws, and `sysconf`.
unfoldable pub create :
    {D : Type 0} → Float D → Option Bytes → ℤ → D → Result AgentError (MonitorAgent D)
create F none cpus interval = err no_interface
create F (some interface) cpus interval = elim (positive cpus) [
  | none ↦ err no_cpu_count
  | some n ↦
      if F.leb interval (F.of_nat 0)
      then err bad_interval
      else ok (record { network_interface = interface; cpu_count = n; interval_seconds = interval })
]

module _ {D : Type 0} where
  abbrev pub metric_of : ProcessInfo D → ProcessMetric D
  metric_of p = record {
    pid = p.pid;
    name = p.name;
    cpu_usage_percent = p.cpu_usage;
    memory_usage_percent = p.memory_usage;
    resident_memory_kb = p.resident_memory_kb;
  }

  unfoldable pub build_metrics :
      Float D
      → MonitorAgent D
      → D
      → D
      → MemoryInfo
      → LoadInfo D
      → SystemInfo
      → DiskInfo
      → NetworkRate D
      → List (ProcessInfo D)
      → SystemMetrics D
  build_metrics F agent cpu_usage interval memory load system disk rate processes = record {
    hostname = system.hostname;
    uptime_seconds = system.uptime_seconds;
    logical_cpu_count = agent.cpu_count;
    cpu_usage_percent = cpu_usage;
    memory_total_kb = memory.total_kb;
    memory_used_kb = used_kb memory;
    memory_available_kb = memory.available_kb;
    memory_usage_percent = memory_percent F memory;
    load1 = load.load1;
    load5 = load.load5;
    load15 = load.load15;
    disk_mount_point = disk.mount_point;
    disk_total_bytes = disk.total_bytes;
    disk_used_bytes = disk.used_bytes;
    disk_available_bytes = disk.available_bytes;
    disk_usage_percent = disk_percent F disk;
    network_interface = agent.network_interface;
    network_rx_bytes_per_second = rate.rx_bytes_per_second;
    network_tx_bytes_per_second = rate.tx_bytes_per_second;
    sample_interval_seconds = interval;
    top_processes = map metric_of (take 5 processes);
  }

-- The readings that a round compares with those of the round before it.
pub record Snapshot : Type 0 where
  pub cpu : CpuTimes
  pub network : NetworkStats
  -- The steady clock after the network was read.
  pub network_time : ℕ
  pub processes : List ProcessSnapshot

-- What the world answers in one round: the collectors, then the clock and the socket.
pub record Round (D : Type 0) : Type 0 where
  pub current : Snapshot
  pub memory : MemoryInfo
  pub load : LoadInfo D
  pub system : SystemInfo
  pub disk : DiskInfo
  pub reconnect_now : ℕ
  pub attempt : Option ℕ
  pub answers : List Sent
  pub failed_at : ℕ

-- How `run` ends: after the rounds, in a call of `send`, or by an exception.
pub data End : Type 0 where
  stopped : Snapshot → Retry → End
  sending : End
  thrown : AgentError → End

abbrev network_result {ℓ} : {V : Type ℓ} → Result NetworkError V → Result AgentError V
network_result (ok v) = ok v
network_result (err e) = err (network e)

abbrev pub frame_result : Result FrameError Bytes → Result AgentError Bytes
frame_result (ok bytes) = ok bytes
frame_result (err e) = err (frame e)

-- An exception before the transmission ends `run`.
abbrev pub framed : Result AgentError Bytes → (Bytes → Bytes × End) → Bytes × End
framed (err e) rest = ([], thrown e)
framed (ok bytes) rest = rest bytes

-- After the transmission of a round: the bytes that went out, and those of the rounds to come.
abbrev pub go_on : Bytes × Option Retry → (Retry → Bytes × End) → Bytes × End
go_on (out, none) rest = (out, sending)
go_on (out, some r) rest = let (later, end) = rest r in (out ++ later, end)

module _ {D : Type 0} (F : Float D) (sort : List (ProcessInfo D) → List (ProcessInfo D))
    (agent : MonitorAgent D) where
  -- `std::chrono::duration<double>(current - previous).count()`
  abbrev pub seconds : ℕ → ℕ → D
  seconds previous current = F.div (F.of_nat (current - previous)) (F.of_nat ticks_per_second)

  abbrev pub interval : Snapshot → Round D → D
  interval previous x = seconds previous.network_time x.current.network_time

  abbrev pub rate_between : Snapshot → Round D → Result AgentError (NetworkRate D)
  rate_between previous x =
      network_result (calculate_rate F previous.network x.current.network (interval previous x))

  -- The call of `buildMetrics`, and those of `calculateUsage`.
  unfoldable pub metrics_with : Snapshot → Round D → NetworkRate D → SystemMetrics D
  metrics_with previous x rate =
      build_metrics F agent (Cpu.calculate_usage F previous.cpu x.current.cpu) (interval previous x)
        x.memory x.load x.system x.disk rate
        (Process.calculate_usage F sort previous.processes x.current.processes
          (difference (Cpu.total x.current.cpu) (Cpu.total previous.cpu)) x.memory.total_kb
          agent.cpu_count)

  -- From the readings to the metrics.
  unfoldable pub measure : Snapshot → Round D → Result AgentError (SystemMetrics D)
  unfolding metrics_with
  measure previous x = do rate ← rate_between previous x; ok (metrics_with previous x rate)

  unfoldable pub frame_of : Snapshot → Round D → Result AgentError Bytes
  unfolding measure
  frame_of previous x = do metrics ← measure previous x; frame_result (encode (serialize F metrics))

  -- The rounds of the loop, while the flag is set: the bytes that went out, and the end. A round is
  -- `none` where a collector throws.
  unfoldable pub run : List (Option (Round D)) → Snapshot → Retry → Bytes × End
  unfolding frame_of
  run [] previous r = ([], stopped previous r)
  run (none ∷ xs) previous r = ([], thrown not_collected)
  run (some x ∷ xs) previous r = framed (frame_of previous x) λ bytes.
      go_on (transmit x.failed_at x.answers bytes (reconnect x.reconnect_now x.attempt r))
        (run xs x.current)
