-- ===== src/Serializer/RoundTrip/Fields.antt =====
-- The chain of tests on the key in MetricsDeserializer.cpp, on values that were written.
use lmonitor.Base.{ℕ, ◌^◌, ◌<◌, ◌≡◌, ◌≢◌, refl, true, false, [], ok, arith, is_empty_no}
use lmonitor.Base.Text.{Bytes, codes, bytes_eq}
use lmonitor.Base.Decimal.{to_string}
use lmonitor.Float.{Float}
use lmonitor.Serializer.Numbers.{parse_double, parse_uint64-to_string, parse_size-to_string}
use lmonitor.Serializer.Reader.{Parsing, set_field, set_load, set_network}
use lmonitor.Serializer.RoundTrip.Sendable.{PrintsFixed}

module _ {D : Type 0} (F : Float D) where
  pub parse_double-print :
      (round : D → D) (d : D) (key : Bytes)
      → PrintsFixed F round
      → F.is_finite d ≡ true
      → parse_double F (F.print_fixed d) key ≡ ok (round d)
  unfolding parse_double
  parse_double-print round d key p h =
      rw (is_empty_no (F.print_fixed d) (p.is_text d h).0, p.reads d h, p.stays_finite d h) refl

  pub set-hostname :
      (v : Bytes) (st : Parsing D)
      → v ≢ []
      → set_field F (codes "hostname") v st
        ≡ ok (record st { metrics = record st.metrics { hostname = v } })
  unfolding set_field bytes_eq
  set-hostname v st ne = rw (is_empty_no v ne) refl

  pub set-uptime :
      (n : ℕ) (st : Parsing D)
      → n < 2 ^ 64
      → set_field F (codes "uptime_seconds") (to_string n) st
        ≡ ok (record st { metrics = record st.metrics { uptime_seconds = n } })
  unfolding set_field bytes_eq
  set-uptime n st h = rw (parse_uint64-to_string n (codes "uptime_seconds") h) refl

  pub set-cpu :
      (round : D → D) (d : D) (st : Parsing D)
      → PrintsFixed F round
      → F.is_finite d ≡ true
      → set_field F (codes "cpu_usage_percent") (F.print_fixed d) st
        ≡ ok (record st { metrics = record st.metrics { cpu_usage_percent = round d } })
  unfolding set_field bytes_eq
  set-cpu round d st p h = rw (parse_double-print round d (codes "cpu_usage_percent") p h) refl

  pub set-memory_total :
      (n : ℕ) (st : Parsing D)
      → n < 2 ^ 64
      → set_field F (codes "memory_total_kb") (to_string n) st
        ≡ ok (record st { metrics = record st.metrics { memory_total_kb = n } })
  unfolding set_field bytes_eq
  set-memory_total n st h = rw (parse_uint64-to_string n (codes "memory_total_kb") h) refl

  pub set-memory_used :
      (n : ℕ) (st : Parsing D)
      → n < 2 ^ 64
      → set_field F (codes "memory_used_kb") (to_string n) st
        ≡ ok (record st { metrics = record st.metrics { memory_used_kb = n } })
  unfolding set_field bytes_eq
  set-memory_used n st h = rw (parse_uint64-to_string n (codes "memory_used_kb") h) refl

  pub set-memory_available :
      (n : ℕ) (st : Parsing D)
      → n < 2 ^ 64
      → set_field F (codes "memory_available_kb") (to_string n) st
        ≡ ok (record st { metrics = record st.metrics { memory_available_kb = n } })
  unfolding set_field bytes_eq
  set-memory_available n st h = rw (parse_uint64-to_string n (codes "memory_available_kb") h) refl

  pub set-memory :
      (round : D → D) (d : D) (st : Parsing D)
      → PrintsFixed F round
      → F.is_finite d ≡ true
      → set_field F (codes "memory_usage_percent") (F.print_fixed d) st
        ≡ ok (record st { metrics = record st.metrics { memory_usage_percent = round d } })
  unfolding set_field bytes_eq
  set-memory round d st p h =
      rw (parse_double-print round d (codes "memory_usage_percent") p h) refl

  pub set-load1 :
      (round : D → D) (d : D) (st : Parsing D)
      → PrintsFixed F round
      → F.is_finite d ≡ true
      → set_field F (codes "load_1") (F.print_fixed d) st
        ≡ ok (record st { metrics = record st.metrics { load1 = round d } })
  unfolding set_field set_load bytes_eq
  set-load1 round d st p h = rw (parse_double-print round d (codes "load_1") p h) refl

  pub set-load5 :
      (round : D → D) (d : D) (st : Parsing D)
      → PrintsFixed F round
      → F.is_finite d ≡ true
      → set_field F (codes "load_5") (F.print_fixed d) st
        ≡ ok (record st { metrics = record st.metrics { load5 = round d } })
  unfolding set_field set_load bytes_eq
  set-load5 round d st p h = rw (parse_double-print round d (codes "load_5") p h) refl

  pub set-load15 :
      (round : D → D) (d : D) (st : Parsing D)
      → PrintsFixed F round
      → F.is_finite d ≡ true
      → set_field F (codes "load_15") (F.print_fixed d) st
        ≡ ok (record st { metrics = record st.metrics { load15 = round d } })
  unfolding set_field set_load bytes_eq
  set-load15 round d st p h = rw (parse_double-print round d (codes "load_15") p h) refl

  pub set-mount :
      (v : Bytes) (st : Parsing D)
      → v ≢ []
      → set_field F (codes "disk_mount") v st
        ≡ ok (record st { metrics = record st.metrics { disk_mount_point = v } })
  unfolding set_field set_load bytes_eq
  set-mount v st ne = rw (is_empty_no v ne) refl

  pub set-disk_total :
      (n : ℕ) (st : Parsing D)
      → n < 2 ^ 64
      → set_field F (codes "disk_total_bytes") (to_string n) st
        ≡ ok (record st { metrics = record st.metrics { disk_total_bytes = n } })
  unfolding set_field set_load bytes_eq
  set-disk_total n st h = rw (parse_uint64-to_string n (codes "disk_total_bytes") h) refl

  pub set-disk_used :
      (n : ℕ) (st : Parsing D)
      → n < 2 ^ 64
      → set_field F (codes "disk_used_bytes") (to_string n) st
        ≡ ok (record st { metrics = record st.metrics { disk_used_bytes = n } })
  unfolding set_field set_load bytes_eq
  set-disk_used n st h = rw (parse_uint64-to_string n (codes "disk_used_bytes") h) refl

  pub set-disk_available :
      (n : ℕ) (st : Parsing D)
      → n < 2 ^ 64
      → set_field F (codes "disk_available_bytes") (to_string n) st
        ≡ ok (record st { metrics = record st.metrics { disk_available_bytes = n } })
  unfolding set_field set_load bytes_eq
  set-disk_available n st h = rw (parse_uint64-to_string n (codes "disk_available_bytes") h) refl

  pub set-disk :
      (round : D → D) (d : D) (st : Parsing D)
      → PrintsFixed F round
      → F.is_finite d ≡ true
      → set_field F (codes "disk_usage_percent") (F.print_fixed d) st
        ≡ ok (record st { metrics = record st.metrics { disk_usage_percent = round d } })
  unfolding set_field set_load bytes_eq
  set-disk round d st p h = rw (parse_double-print round d (codes "disk_usage_percent") p h) refl

  pub set-network :
      (v : Bytes) (st : Parsing D)
      → v ≢ []
      → set_field F (codes "network_interface") v st
        ≡ ok (record st { metrics = record st.metrics { network_interface = v } })
  unfolding set_field set_load set_network bytes_eq
  set-network v st ne = rw (is_empty_no v ne) refl

  pub set-rx :
      (round : D → D) (d : D) (st : Parsing D)
      → PrintsFixed F round
      → F.is_finite d ≡ true
      → set_field F (codes "network_rx_bytes_per_second") (F.print_fixed d) st
        ≡ ok (record st { metrics = record st.metrics { network_rx_bytes_per_second = round d } })
  unfolding set_field set_load set_network bytes_eq
  set-rx round d st p h =
      rw (parse_double-print round d (codes "network_rx_bytes_per_second") p h) refl

  pub set-tx :
      (round : D → D) (d : D) (st : Parsing D)
      → PrintsFixed F round
      → F.is_finite d ≡ true
      → set_field F (codes "network_tx_bytes_per_second") (F.print_fixed d) st
        ≡ ok (record st { metrics = record st.metrics { network_tx_bytes_per_second = round d } })
  unfolding set_field set_load set_network bytes_eq
  set-tx round d st p h =
      rw (parse_double-print round d (codes "network_tx_bytes_per_second") p h) refl

  pub set-cpus :
      (n : ℕ) (st : Parsing D)
      → n ≢ 0
      → n < 2 ^ 64
      → set_field F (codes "logical_cpus") (to_string n) st
        ≡ ok (record st { metrics = record st.metrics { logical_cpu_count = n } })
  unfolding set_field bytes_eq
  set-cpus n st ne h = rw (parse_size-to_string n (codes "logical_cpus") h) (ground arith)

  pub set-interval :
      (round : D → D) (d : D) (st : Parsing D)
      → PrintsFixed F round
      → F.is_finite d ≡ true
      → F.leb (round d) (F.of_nat 0) ≡ false
      → set_field F (codes "sample_interval_seconds") (F.print_fixed d) st
        ≡ ok (record st { metrics = record st.metrics { sample_interval_seconds = round d } })
  unfolding set_field set_load set_network bytes_eq
  set-interval round d st p h up =
      rw (parse_double-print round d (codes "sample_interval_seconds") p h, up) refl

  pub set-count :
      (n : ℕ) (st : Parsing D)
      → n < 2 ^ 64
      → set_field F (codes "process_count") (to_string n) st
        ≡ ok (record st { expected_process_count = n; process_count_seen = true })
  unfolding set_field set_load set_network bytes_eq
  set-count n st h = rw (parse_size-to_string n (codes "process_count") h) refl
