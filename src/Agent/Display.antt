-- ===== src/Agent/Display.antt =====
-- `displayMetrics` of src/agent/MonitorAgent.cpp: what it writes to the terminal.
use lmonitor.Base.{
  ℕ, zero, suc, ◌+◌, ◌-◌, ◌*◌, ◌/◌, ◌%◌, ◌≤◌, ◌<◌, List, [], ◌∷◌, ◌++◌, length, arith,
}
use lmonitor.Base.Text.{Bytes, codes}
use lmonitor.Base.Decimal.{to_string}
use lmonitor.Base.Number.{signed_to_string}
use lmonitor.Float.{Float}
use lmonitor.Model.{SystemMetrics, ProcessMetric}

unfoldable pub days : ℕ → ℕ
days uptime = uptime / 86400

unfoldable pub hours : ℕ → ℕ
hours uptime = uptime % 86400 / 3600

unfoldable pub minutes : ℕ → ℕ
minutes uptime = uptime % 3600 / 60

abbrev spaces : ℕ → Bytes
spaces zero = []
spaces (suc n) = b' ' ∷ spaces n

-- `std::left << std::setw(width) << text`
abbrev pub padded : ℕ → Bytes → Bytes
padded width text = text ++ spaces (width - length text)

abbrev clear_terminal : Bytes
clear_terminal = 27 ∷ codes "[2J" ++ 27 ∷ codes "[H"

abbrev rule : Bytes
rule = codes "========================================\n"

-- A label, a value and what follows it.
abbrev pub row : Bytes → Bytes → Bytes → Bytes
row label value unit = label ++ (value ++ unit)

module _ {D : Type 0} (F : Float D) where
  -- `static_cast<double>(n) / unit`
  abbrev pub scaled : ℕ → ℕ → Bytes
  scaled unit n = F.print_fixed (F.div (F.of_nat n) (F.of_nat unit))

  unfoldable pub header_text : SystemMetrics D → Bytes
  header_text m =
      clear_terminal
      ++ rule
      ++ codes "            LMonitor Agent\n"
      ++ rule
      ++ codes "\n"
      ++ row (codes "Hostname        : ") m.hostname (codes "\n")
      ++ codes "Uptime          : "
      ++ row (to_string (days m.uptime_seconds)) (codes " days ") []
      ++ row (to_string (hours m.uptime_seconds)) (codes " hours ") []
      ++ row (to_string (minutes m.uptime_seconds)) (codes " minutes\n") []
      ++ row (codes "Logical CPUs    : ") (to_string m.logical_cpu_count) (codes "\n\n")
      ++ row (codes "CPU Usage       : ") (F.print_fixed m.cpu_usage_percent) (codes " %\n")
      ++ row (codes "Sample Interval : ") (F.print_fixed m.sample_interval_seconds) (codes " s\n\n")

  unfoldable pub memory_text : SystemMetrics D → Bytes
  memory_text m =
      let gib = scaled (1024 * 1024) in
      codes "Memory\n"
      ++ row (codes "  Total         : ") (gib m.memory_total_kb) (codes " GiB\n")
      ++ row (codes "  Used          : ") (gib m.memory_used_kb) (codes " GiB\n")
      ++ row (codes "  Available     : ") (gib m.memory_available_kb) (codes " GiB\n")
      ++ row (codes "  Usage         : ") (F.print_fixed m.memory_usage_percent) (codes " %\n\n")
      ++ codes "Load Average\n"
      ++ row (codes "  1 min         : ") (F.print_fixed m.load1) (codes "\n")
      ++ row (codes "  5 min         : ") (F.print_fixed m.load5) (codes "\n")
      ++ row (codes "  15 min        : ") (F.print_fixed m.load15) (codes "\n\n")

  unfoldable pub disk_text : SystemMetrics D → Bytes
  disk_text m =
      let gib = scaled (1024 * 1024 * 1024) in
      row (codes "Disk ") m.disk_mount_point (codes "\n")
      ++ row (codes "  Total         : ") (gib m.disk_total_bytes) (codes " GiB\n")
      ++ row (codes "  Used          : ") (gib m.disk_used_bytes) (codes " GiB\n")
      ++ row (codes "  Available     : ") (gib m.disk_available_bytes) (codes " GiB\n")
      ++ row (codes "  Usage         : ") (F.print_fixed m.disk_usage_percent) (codes " %\n\n")

  -- A rate in KiB and in MiB.
  abbrev pub rate_row : Bytes → D → Bytes → Bytes
  rate_row label rate end =
      label
      ++ F.print_fixed (F.div rate (F.of_nat 1024))
      ++ codes " KiB/s  ("
      ++ F.print_fixed (F.div rate (F.of_nat (1024 * 1024)))
      ++ end

  unfoldable pub network_text : SystemMetrics D → Bytes
  network_text m =
      row (codes "Network ") m.network_interface (codes "\n")
      ++ rate_row (codes "  RX Rate       : ") m.network_rx_bytes_per_second (codes " MiB/s)\n")
      ++ rate_row (codes "  TX Rate       : ") m.network_tx_bytes_per_second (codes " MiB/s)\n\n")

  unfoldable pub process_row : ProcessMetric D → Bytes
  process_row p =
      padded 10 (signed_to_string p.pid)
      ++ padded 12 (F.print_fixed p.cpu_usage_percent)
      ++ padded 12 (F.print_fixed p.memory_usage_percent)
      ++ padded 14 (scaled 1024 p.resident_memory_kb)
      ++ p.name
      ++ codes "\n"

  unfoldable pub process_rows : List (ProcessMetric D) → Bytes
  unfolding process_row
  process_rows [] = []
  process_rows (p ∷ ps) = process_row p ++ process_rows ps

  unfoldable pub display_metrics : SystemMetrics D → Bytes
  unfolding header_text memory_text disk_text network_text process_rows
  display_metrics m =
      header_text m
      ++ memory_text m
      ++ disk_text m
      ++ network_text m
      ++ codes "Top Processes (by CPU)\n\n"
      ++ padded 10 (codes "PID")
      ++ padded 12 (codes "CPU%")
      ++ padded 12 (codes "MEM%")
      ++ padded 14 (codes "RSS(MiB)")
      ++ codes "NAME\n"
      ++ codes "------------------------------------------------------\n"
      ++ process_rows m.top_processes
      ++ codes "\n"
      ++ rule

-- The days, hours and minutes that are shown are the uptime, less the seconds of the last minute.
pub uptime_parts :
    (uptime : ℕ)
    → (hours uptime < 24)
      × (minutes uptime < 60)
      × (days uptime * 86400 + hours uptime * 3600 + minutes uptime * 60 ≤ uptime)
      × (uptime < days uptime * 86400 + hours uptime * 3600 + minutes uptime * 60 + 60)
unfolding days hours minutes
uptime_parts uptime = (omega arith, omega arith, omega arith, omega arith)
