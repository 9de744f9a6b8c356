-- ===== src/Sample.antt =====
-- Data of the tests: whole numbers in place of double, and metrics.
use lmonitor.Base.{ℕ, ◌*◌, ◌/◌, ◌^◌, [], ltb, leb}
use lmonitor.Base.Text.{Bytes, codes}
use lmonitor.Base.Decimal.{to_string}
use lmonitor.Base.Number.{stoull}
use lmonitor.Float.{Float}
use lmonitor.Model.{SystemMetrics}

abbrev pub whole : Float ℕ
whole = record {
  of_nat = λ n. n;
  geb = λ a b. leb b a;
  leb = leb;
  is_finite = λ d. ltb d (2 ^ 64);
  stod = stoull;
  print_fixed = to_string;
  print = to_string;
  mul = ◌*◌;
  div = ◌/◌;
}

abbrev pub host_a : Bytes
host_a = codes "a"

abbrev pub host_b : Bytes
host_b = codes "b"

abbrev pub metrics_of : Bytes → ℕ → ℕ → ℕ → SystemMetrics ℕ
metrics_of host cpu memory disk = record {
  hostname = host;
  uptime_seconds = 1;
  logical_cpu_count = 4;
  cpu_usage_percent = cpu;
  memory_total_kb = 1000;
  memory_used_kb = 400;
  memory_available_kb = 600;
  memory_usage_percent = memory;
  load1 = 1;
  load5 = 2;
  load15 = 3;
  disk_mount_point = codes "/";
  disk_total_bytes = 10;
  disk_used_bytes = 4;
  disk_available_bytes = 6;
  disk_usage_percent = disk;
  network_interface = codes "eth0";
  network_rx_bytes_per_second = 0;
  network_tx_bytes_per_second = 0;
  sample_interval_seconds = 2;
  top_processes = [];
}
