-- ===== src/Serializer/RoundTrip/Whole.antt =====
-- A whole text of MetricsSerializer.cpp through `deserialize` of MetricsDeserializer.cpp.
use lmonitor.Base.{
  suc, ◌≡◌, refl, ap, ◌∙◌, true, false, List, [], ◌∷◌, ◌++◌, ok, arith, ◌>>=◌, map, length,
}
use lmonitor.Base.Text.{Bytes, codes, bytes_eq}
use lmonitor.Base.Decimal.{to_string}
use lmonitor.Base.Lines.{lines, has, lines-line}
use lmonitor.Float.{Float}
use lmonitor.Model.{SystemMetrics}
use lmonitor.Serializer.Writer.{write_system, write_network, write_load, serialize}
use lmonitor.Serializer.Reader.{
  Parsing, contains, verify, verify_required_fields, parse_lines, initial, initial_metrics, finish,
  deserialize,
}
use lmonitor.Serializer.RoundTrip.Sendable.{PrintsFixed, IsSendable, rounded, rounded_process}
use lmonitor.Serializer.RoundTrip.Fields.{
  set-hostname, set-uptime, set-cpus, set-cpu, set-memory_total, set-memory_used,
  set-memory_available, set-memory, set-load1, set-load5, set-load15, set-mount, set-disk_total,
  set-disk_used, set-disk_available, set-disk, set-network, set-rx, set-tx, set-interval, set-count,
}
use lmonitor.Serializer.RoundTrip.Lines.{field, to_string-IsText, strip_cr_lem}
use lmonitor.Serializer.RoundTrip.Processes.{parse_lines-processes}

length-map {ℓ κ} :
    {A : Type ℓ} {B : Type κ} (f : A → B) (xs : List A) → length (map f xs) ≡ length xs
length-map f [] = refl
length-map f (x ∷ xs) = ap suc (length-map f xs)

module _ {D : Type 0} (F : Float D) (round : D → D) (P : PrintsFixed F round) where
  -- The keys behind which the network's lines, and the load's, stand.
  abbrev first_keys : List Bytes
  first_keys =
      codes "memory_usage_percent"
      ∷ codes "memory_available_kb"
      ∷ codes "memory_used_kb"
      ∷ codes "memory_total_kb"
      ∷ codes "cpu_usage_percent"
      ∷ codes "logical_cpus"
      ∷ codes "uptime_seconds"
      ∷ codes "hostname"
      ∷ []

  abbrev load_keys : List Bytes
  load_keys =
      codes "disk_usage_percent"
      ∷ codes "disk_available_bytes"
      ∷ codes "disk_used_bytes"
      ∷ codes "disk_total_bytes"
      ∷ codes "disk_mount"
      ∷ codes "load_15"
      ∷ codes "load_5"
      ∷ codes "load_1"
      ∷ first_keys

  abbrev all_keys : List Bytes
  all_keys =
      codes "process_count"
      ∷ codes "sample_interval_seconds"
      ∷ codes "network_tx_bytes_per_second"
      ∷ codes "network_rx_bytes_per_second"
      ∷ codes "network_interface"
      ∷ load_keys

  -- What has been read of `m` into `m₀`, part by part.
  abbrev read_first : SystemMetrics D → SystemMetrics D → SystemMetrics D
  read_first m m₀ = record m₀ {
    hostname = m.hostname;
    uptime_seconds = m.uptime_seconds;
    logical_cpu_count = m.logical_cpu_count;
    cpu_usage_percent = round m.cpu_usage_percent;
    memory_total_kb = m.memory_total_kb;
    memory_used_kb = m.memory_used_kb;
    memory_available_kb = m.memory_available_kb;
    memory_usage_percent = round m.memory_usage_percent;
  }

  abbrev read_load : SystemMetrics D → SystemMetrics D → SystemMetrics D
  read_load m m₀ = record m₀ {
    load1 = round m.load1;
    load5 = round m.load5;
    load15 = round m.load15;
    disk_mount_point = m.disk_mount_point;
    disk_total_bytes = m.disk_total_bytes;
    disk_used_bytes = m.disk_used_bytes;
    disk_available_bytes = m.disk_available_bytes;
    disk_usage_percent = round m.disk_usage_percent;
  }

  abbrev read_network : SystemMetrics D → SystemMetrics D → SystemMetrics D
  read_network m m₀ = record m₀ {
    network_interface = m.network_interface;
    network_rx_bytes_per_second = round m.network_rx_bytes_per_second;
    network_tx_bytes_per_second = round m.network_tx_bytes_per_second;
    sample_interval_seconds = round m.sample_interval_seconds;
    top_processes = m₀.top_processes ++ map (rounded_process round) m.top_processes;
  }

  -- The loop's variables when only `fields` were read.
  abbrev reading : SystemMetrics D → List Bytes → Parsing D
  reading m fields = record {
    metrics = m;
    received_fields = fields;
    expected_process_count = 0;
    process_count_seen = false;
  }

  network_part :
      (m m₀ : SystemMetrics D)
      → IsSendable F round m
      → parse_lines F (lines (write_network F m)) (reading m₀ load_keys)
        ≡ ok (record {
          metrics = read_network m m₀;
          received_fields = all_keys;
          expected_process_count = length m.top_processes;
          process_count_seen = true;
        })
  unfolding write_network has contains bytes_eq
  network_part m m₀ S =
      field F (codes "network_interface") m.network_interface _ _
        (record { one_line = (refl, refl); no_equals = refl; given = refl }) S.network.1 refl refl
        (set-network F m.network_interface _ S.network.0)
      ∙ field F (codes "network_rx_bytes_per_second") (F.print_fixed m.network_rx_bytes_per_second)
          _ _ (record { one_line = (refl, refl); no_equals = refl; given = refl })
          (P.is_text m.network_rx_bytes_per_second S.rx).1 refl refl
          (set-rx F round m.network_rx_bytes_per_second _ P S.rx)
      ∙ field F (codes "network_tx_bytes_per_second") (F.print_fixed m.network_tx_bytes_per_second)
          _ _ (record { one_line = (refl, refl); no_equals = refl; given = refl })
          (P.is_text m.network_tx_bytes_per_second S.tx).1 refl refl
          (set-tx F round m.network_tx_bytes_per_second _ P S.tx)
      ∙ field F (codes "sample_interval_seconds") (F.print_fixed m.sample_interval_seconds) _ _
          (record { one_line = (refl, refl); no_equals = refl; given = refl })
          (P.is_text m.sample_interval_seconds S.interval).1 refl refl
          (set-interval F round m.sample_interval_seconds _ P S.interval S.interval_positive)
      ∙ field F (codes "process_count") (to_string (length m.top_processes)) _ _
          (record { one_line = (refl, refl); no_equals = refl; given = refl })
          (to_string-IsText (length m.top_processes)).1 refl refl
          (set-count F (length m.top_processes) _ S.count)
      ∙ parse_lines-processes F round P m.top_processes _ S.processes

  load_part :
      (m m₀ : SystemMetrics D)
      → IsSendable F round m
      → parse_lines F (lines (write_load F m)) (reading m₀ first_keys)
        ≡ parse_lines F (lines (write_network F m)) (reading (read_load m m₀) load_keys)
  unfolding write_load has contains bytes_eq
  load_part m m₀ S =
      field F (codes "load_1") (F.print_fixed m.load1) _ _
        (record { one_line = (refl, refl); no_equals = refl; given = refl })
        (P.is_text m.load1 S.load1).1 refl refl (set-load1 F round m.load1 _ P S.load1)
      ∙ field F (codes "load_5") (F.print_fixed m.load5) _ _
          (record { one_line = (refl, refl); no_equals = refl; given = refl })
          (P.is_text m.load5 S.load5).1 refl refl (set-load5 F round m.load5 _ P S.load5)
      ∙ field F (codes "load_15") (F.print_fixed m.load15) _ _
          (record { one_line = (refl, refl); no_equals = refl; given = refl })
          (P.is_text m.load15 S.load15).1 refl refl (set-load15 F round m.load15 _ P S.load15)
      ∙ field F (codes "disk_mount") m.disk_mount_point _ _
          (record { one_line = (refl, refl); no_equals = refl; given = refl }) S.mount.1 refl refl
          (set-mount F m.disk_mount_point _ S.mount.0)
      ∙ field F (codes "disk_total_bytes") (to_string m.disk_total_bytes) _ _
          (record { one_line = (refl, refl); no_equals = refl; given = refl })
          (to_string-IsText m.disk_total_bytes).1 refl refl
          (set-disk_total F m.disk_total_bytes _ S.disk_total)
      ∙ field F (codes "disk_used_bytes") (to_string m.disk_used_bytes) _ _
          (record { one_line = (refl, refl); no_equals = refl; given = refl })
          (to_string-IsText m.disk_used_bytes).1 refl refl
          (set-disk_used F m.disk_used_bytes _ S.disk_used)
      ∙ field F (codes "disk_available_bytes") (to_string m.disk_available_bytes) _ _
          (record { one_line = (refl, refl); no_equals = refl; given = refl })
          (to_string-IsText m.disk_available_bytes).1 refl refl
          (set-disk_available F m.disk_available_bytes _ S.disk_available)
      ∙ field F (codes "disk_usage_percent") (F.print_fixed m.disk_usage_percent) _ _
          (record { one_line = (refl, refl); no_equals = refl; given = refl })
          (P.is_text m.disk_usage_percent S.disk).1 refl refl
          (set-disk F round m.disk_usage_percent _ P S.disk)

  first_part :
      (m m₀ : SystemMetrics D)
      → IsSendable F round m
      → parse_lines F (lines (write_system F m)) (reading m₀ [])
        ≡ parse_lines F (lines (write_load F m)) (reading (read_first m m₀) first_keys)
  unfolding write_system has contains bytes_eq
  first_part m m₀ S =
      field F (codes "hostname") m.hostname _ _
        (record { one_line = (refl, refl); no_equals = refl; given = refl }) S.hostname.1 refl refl
        (set-hostname F m.hostname _ S.hostname.0)
      ∙ field F (codes "uptime_seconds") (to_string m.uptime_seconds) _ _
          (record { one_line = (refl, refl); no_equals = refl; given = refl })
          (to_string-IsText m.uptime_seconds).1 refl refl (set-uptime F m.uptime_seconds _ S.uptime)
      ∙ field F (codes "logical_cpus") (to_string m.logical_cpu_count) _ _
          (record { one_line = (refl, refl); no_equals = refl; given = refl })
          (to_string-IsText m.logical_cpu_count).1 refl refl
          (set-cpus F m.logical_cpu_count _ S.cpus.0 S.cpus.1)
      ∙ field F (codes "cpu_usage_percent") (F.print_fixed m.cpu_usage_percent) _ _
          (record { one_line = (refl, refl); no_equals = refl; given = refl })
          (P.is_text m.cpu_usage_percent S.cpu).1 refl refl
          (set-cpu F round m.cpu_usage_percent _ P S.cpu)
      ∙ field F (codes "memory_total_kb") (to_string m.memory_total_kb) _ _
          (record { one_line = (refl, refl); no_equals = refl; given = refl })
          (to_string-IsText m.memory_total_kb).1 refl refl
          (set-memory_total F m.memory_total_kb _ S.memory_total)
      ∙ field F (codes "memory_used_kb") (to_string m.memory_used_kb) _ _
          (record { one_line = (refl, refl); no_equals = refl; given = refl })
          (to_string-IsText m.memory_used_kb).1 refl refl
          (set-memory_used F m.memory_used_kb _ S.memory_used)
      ∙ field F (codes "memory_available_kb") (to_string m.memory_available_kb) _ _
          (record { one_line = (refl, refl); no_equals = refl; given = refl })
          (to_string-IsText m.memory_available_kb).1 refl refl
          (set-memory_available F m.memory_available_kb _ S.memory_available)
      ∙ field F (codes "memory_usage_percent") (F.print_fixed m.memory_usage_percent) _ _
          (record { one_line = (refl, refl); no_equals = refl; given = refl })
          (P.is_text m.memory_usage_percent S.memory).1 refl refl
          (set-memory F round m.memory_usage_percent _ P S.memory)

  deserialize-version :
      (s : Bytes)
      → deserialize F (codes "LMONITOR/1" ++ b'\n' ∷ s)
        ≡ (parse_lines F (lines s) (initial F) >>= finish F)
  unfolding deserialize has bytes_eq
  deserialize-version s =
      rw (lines-line (codes "LMONITOR/1") s refl, strip_cr_lem (codes "LMONITOR/1") refl) refl

  all_lines :
      (m : SystemMetrics D)
      → IsSendable F round m
      → parse_lines F (lines (write_system F m)) (initial F)
        ≡ ok (record {
          metrics = rounded round m;
          received_fields = all_keys;
          expected_process_count = length m.top_processes;
          process_count_seen = true;
        })
  all_lines m S =
      let m₁ = read_first m (initial_metrics F) in
      first_part m (initial_metrics F) S ∙ load_part m m₁ S ∙ network_part m (read_load m m₁) S

  -- Metrics that are within the limits of the format come back as they were sent, with the numbers
  -- that have a fraction rounded by the print, as far as printing and std::stod do what
  -- `PrintsFixed` says.
  pub deserialize-serialize :
      (m : SystemMetrics D)
      → IsSendable F round m
      → deserialize F (serialize F m) ≡ ok (rounded round m)
  unfolding serialize finish verify_required_fields verify contains bytes_eq
  deserialize-serialize m S =
      deserialize-version (write_system F m)
      ∙ ap (λ r. r >>= finish F) (all_lines m S)
      ∙ ground (arith, length-map (rounded_process round) m.top_processes)
