-- ===== src/Serializer/RoundTrip/Sendable.antt =====
-- Metrics within the limits of the text form of MetricsSerializer.cpp.
use lmonitor.Base.{ℕ, ◌^◌, ◌<◌, ◌≡◌, ◌≢◌, true, false, [], map, ok, All, length}
use lmonitor.Base.Text.{Bytes}
use lmonitor.Base.Lines.{has}
use lmonitor.Base.Number.{pos}
use lmonitor.Float.{Float}
use lmonitor.Model.{ProcessMetric, SystemMetrics}

-- A value that stays within its line.
abbrev pub IsLine : Bytes → Type 0
IsLine s = (has b'\n' s ≡ false) × (has b'\r' s ≡ false)

abbrev pub IsText : Bytes → Type 0
IsText s = (s ≢ []) × IsLine s

module _ {D : Type 0} where
  -- The print of a finite number with two decimals is a text with no comma, and std::stod reads all
  -- of it, as the number that `round` gives, which is finite.
  pub record PrintsFixed (F : Float D) (round : D → D) : Type 0 where
    pub reads : (d : D) → F.is_finite d ≡ true → F.stod (F.print_fixed d) ≡ ok (round d, [])
    pub stays_finite : (d : D) → F.is_finite d ≡ true → F.is_finite (round d) ≡ true
    pub is_text : (d : D) → F.is_finite d ≡ true → IsText (F.print_fixed d)
    pub no_comma : (d : D) → F.is_finite d ≡ true → has b',' (F.print_fixed d) ≡ false

  -- The numbers within their types, which the struct's fields are anyway, and finite; a pid that is
  -- not negative; and a name.
  pub record IsSendableProcess (F : Float D) (p : ProcessMetric D) : Type 0 where
    pub pid : (n : ℕ) × (p.pid ≡ pos n) × (n < 2 ^ 31)
    pub name : IsText p.name
    pub cpu : F.is_finite p.cpu_usage_percent ≡ true
    pub memory : F.is_finite p.memory_usage_percent ≡ true
    pub resident : p.resident_memory_kb < 2 ^ 64

  pub record IsSendable (F : Float D) (round : D → D) (m : SystemMetrics D) : Type 0 where
    pub hostname : IsText m.hostname
    pub uptime : m.uptime_seconds < 2 ^ 64
    pub cpus : (m.logical_cpu_count ≢ 0) × (m.logical_cpu_count < 2 ^ 64)
    pub cpu : F.is_finite m.cpu_usage_percent ≡ true
    pub memory_total : m.memory_total_kb < 2 ^ 64
    pub memory_used : m.memory_used_kb < 2 ^ 64
    pub memory_available : m.memory_available_kb < 2 ^ 64
    pub memory : F.is_finite m.memory_usage_percent ≡ true
    pub load1 : F.is_finite m.load1 ≡ true
    pub load5 : F.is_finite m.load5 ≡ true
    pub load15 : F.is_finite m.load15 ≡ true
    pub mount : IsText m.disk_mount_point
    pub disk_total : m.disk_total_bytes < 2 ^ 64
    pub disk_used : m.disk_used_bytes < 2 ^ 64
    pub disk_available : m.disk_available_bytes < 2 ^ 64
    pub disk : F.is_finite m.disk_usage_percent ≡ true
    pub network : IsText m.network_interface
    pub rx : F.is_finite m.network_rx_bytes_per_second ≡ true
    pub tx : F.is_finite m.network_tx_bytes_per_second ≡ true
    pub interval : F.is_finite m.sample_interval_seconds ≡ true
    pub interval_positive : F.leb (round m.sample_interval_seconds) (F.of_nat 0) ≡ false
    pub count : length m.top_processes < 2 ^ 64
    pub processes : All (IsSendableProcess F) m.top_processes

  -- Every number with a fraction is rounded; all else is kept.
  abbrev pub rounded_process : (D → D) → ProcessMetric D → ProcessMetric D
  rounded_process round p = record p {
    cpu_usage_percent = round p.cpu_usage_percent;
    memory_usage_percent = round p.memory_usage_percent;
  }

  abbrev pub rounded : (D → D) → SystemMetrics D → SystemMetrics D
  rounded round m = record m {
    cpu_usage_percent = round m.cpu_usage_percent;
    memory_usage_percent = round m.memory_usage_percent;
    load1 = round m.load1;
    load5 = round m.load5;
    load15 = round m.load15;
    disk_usage_percent = round m.disk_usage_percent;
    network_rx_bytes_per_second = round m.network_rx_bytes_per_second;
    network_tx_bytes_per_second = round m.network_tx_bytes_per_second;
    sample_interval_seconds = round m.sample_interval_seconds;
    top_processes = map (rounded_process round) m.top_processes;
  }
