-- ===== src/Model.antt =====
-- include/model/SystemMetrics.h. The type `D` stands for double.
use lmonitor.Base.{ℕ, List}
use lmonitor.Base.Text.{Bytes}
use lmonitor.Base.Number.{ℤ}

pub record ProcessMetric (D : Type 0) : Type 0 where
  pub pid : ℤ
  pub name : Bytes
  pub cpu_usage_percent : D
  pub memory_usage_percent : D
  pub resident_memory_kb : ℕ

pub record SystemMetrics (D : Type 0) : Type 0 where
  pub hostname : Bytes
  pub uptime_seconds : ℕ
  pub logical_cpu_count : ℕ
  pub cpu_usage_percent : D
  pub memory_total_kb : ℕ
  pub memory_used_kb : ℕ
  pub memory_available_kb : ℕ
  pub memory_usage_percent : D
  pub load1 : D
  pub load5 : D
  pub load15 : D
  pub disk_mount_point : Bytes
  pub disk_total_bytes : ℕ
  pub disk_used_bytes : ℕ
  pub disk_available_bytes : ℕ
  pub disk_usage_percent : D
  pub network_interface : Bytes
  pub network_rx_bytes_per_second : D
  pub network_tx_bytes_per_second : D
  pub sample_interval_seconds : D
  pub top_processes : List (ProcessMetric D)
