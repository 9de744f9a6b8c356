-- ===== src/Serializer/Writer.antt =====
-- src/serializer/MetricsSerializer.cpp. The output stream is the text behind what is written.
use lmonitor.Base.{List, [], ◌∷◌, ◌++◌, length}
use lmonitor.Base.Text.{Bytes, codes}
use lmonitor.Base.Decimal.{to_string}
use lmonitor.Base.Number.{signed_to_string}
use lmonitor.Float.{Float}
use lmonitor.Model.{ProcessMetric, SystemMetrics}

-- `output << "name=" << value << '\n'`, with what is written behind it
abbrev pub entry : Bytes → Bytes → Bytes → Bytes
entry key value rest = (key ++ b'=' ∷ value) ++ b'\n' ∷ rest

module _ {D : Type 0} (F : Float D) where
  -- The fields of a process record, between commas.
  abbrev pub process_text : ProcessMetric D → Bytes
  process_text p =
      signed_to_string p.pid
      ++ b','
        ∷ (F.print_fixed p.cpu_usage_percent
            ++ b','
              ∷ (F.print_fixed p.memory_usage_percent
                  ++ b',' ∷ (to_string p.resident_memory_kb ++ b',' ∷ p.name)))

  unfoldable pub write_processes : List (ProcessMetric D) → Bytes
  write_processes [] = []
  write_processes (p ∷ ps) = entry (codes "process") (process_text p) (write_processes ps)

  -- The lines behind the disk's.
  unfoldable pub write_network : SystemMetrics D → Bytes
  unfolding write_processes
  write_network m = entry (codes "network_interface") m.network_interface (
      entry (codes "network_rx_bytes_per_second") (F.print_fixed m.network_rx_bytes_per_second) (
        entry (codes "network_tx_bytes_per_second") (F.print_fixed m.network_tx_bytes_per_second) (
          entry (codes "sample_interval_seconds") (F.print_fixed m.sample_interval_seconds) (
            entry (codes "process_count") (to_string (length m.top_processes))
              (write_processes m.top_processes)))))

  -- The lines behind the memory's.
  unfoldable pub write_load : SystemMetrics D → Bytes
  unfolding write_network
  write_load m = entry (codes "load_1") (F.print_fixed m.load1) (
      entry (codes "load_5") (F.print_fixed m.load5) (
        entry (codes "load_15") (F.print_fixed m.load15) (
          entry (codes "disk_mount") m.disk_mount_point (
            entry (codes "disk_total_bytes") (to_string m.disk_total_bytes) (
              entry (codes "disk_used_bytes") (to_string m.disk_used_bytes) (
                entry (codes "disk_available_bytes") (to_string m.disk_available_bytes) (
                  entry (codes "disk_usage_percent") (F.print_fixed m.disk_usage_percent)
                    (write_network m))))))))

  unfoldable pub write_system : SystemMetrics D → Bytes
  unfolding write_load
  write_system m = entry (codes "hostname") m.hostname (
      entry (codes "uptime_seconds") (to_string m.uptime_seconds) (
        entry (codes "logical_cpus") (to_string m.logical_cpu_count) (
          entry (codes "cpu_usage_percent") (F.print_fixed m.cpu_usage_percent) (
            entry (codes "memory_total_kb") (to_string m.memory_total_kb) (
              entry (codes "memory_used_kb") (to_string m.memory_used_kb) (
                entry (codes "memory_available_kb") (to_string m.memory_available_kb) (
                  entry (codes "memory_usage_percent") (F.print_fixed m.memory_usage_percent)
                    (write_load m))))))))

  unfoldable pub serialize : SystemMetrics D → Bytes
  unfolding write_system
  serialize m = codes "LMONITOR/1" ++ b'\n' ∷ write_system m
