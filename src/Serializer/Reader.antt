-- ===== src/Serializer/Reader.antt =====
-- src/serializer/MetricsDeserializer.cpp, but for its number parsers.
use Prim.{tt}
use lmonitor.Base.{
  ℕ, ◌-◌, Bool, true, false, ◌||◌, not, List, [], ◌∷◌, ◌++◌, Option, none, some, Result, ok, err,
  ◌>>=◌, ◌==◌, if◌then◌else◌, length, is_empty, take,
}
use lmonitor.Base.Text.{Bytes, codes, bytes_eq}
use lmonitor.Base.Lines.{ends, lines, cut}
use lmonitor.Base.Number.{ℤ, pos, negsuc}
use lmonitor.Float.{Float}
use lmonitor.Model.{ProcessMetric, SystemMetrics}
use lmonitor.Serializer.Numbers.{
  ParseError, empty_payload, no_version, unsupported_version, malformed_line, empty_name,
  empty_value, not_positive, malformed_process, negative_pid, empty_process_name, duplicate_field,
  missing_field, unknown_field, no_process_count, count_mismatch, parse_uint64, parse_size,
  parse_int, parse_double,
}

-- The next field of a process record, up to a comma.
abbrev next_field : Bytes → Result ParseError (Bytes × Bytes)
next_field value = elim (cut b',' value) [ none ↦ err malformed_process | some p ↦ ok p ]

abbrev pub is_negative : ℤ → Bool
is_negative (pos n) = false
is_negative (negsuc n) = true

-- `if (!line.empty() && line.back() == '\r') line.pop_back();`
unfoldable pub strip_cr : Bytes → Bytes
strip_cr line = if ends b'\r' line then take (length line - 1) line else line

-- The set `receivedFields`
unfoldable pub contains : Bytes → List Bytes → Bool
contains key [] = false
contains key (k ∷ fields) = bytes_eq k key || contains key fields

unfoldable pub mark_required_field : List Bytes → Bytes → Result ParseError (List Bytes)
mark_required_field fields key =
    if contains key fields then err (duplicate_field key) else ok (key ∷ fields)

abbrev pub required_fields : List Bytes
required_fields =
    codes "hostname"
    ∷ codes "uptime_seconds"
    ∷ codes "logical_cpus"
    ∷ codes "cpu_usage_percent"
    ∷ codes "memory_total_kb"
    ∷ codes "memory_used_kb"
    ∷ codes "memory_available_kb"
    ∷ codes "memory_usage_percent"
    ∷ codes "load_1"
    ∷ codes "load_5"
    ∷ codes "load_15"
    ∷ codes "disk_mount"
    ∷ codes "disk_total_bytes"
    ∷ codes "disk_used_bytes"
    ∷ codes "disk_available_bytes"
    ∷ codes "disk_usage_percent"
    ∷ codes "network_interface"
    ∷ codes "network_rx_bytes_per_second"
    ∷ codes "network_tx_bytes_per_second"
    ∷ codes "sample_interval_seconds"
    ∷ codes "process_count"
    ∷ []

-- The loop of `verifyRequiredFields`
unfoldable pub verify : List Bytes → List Bytes → Result ParseError (Unit {0})
verify [] fields = ok tt
verify (r ∷ required) fields =
    let rest = verify required fields in if contains r fields then rest else err (missing_field r)

unfoldable pub verify_required_fields : List Bytes → Result ParseError (Unit {0})
unfolding verify
verify_required_fields fields = verify required_fields fields

-- The variables of `deserialize`
pub record Parsing (D : Type 0) : Type 0 where
  pub metrics : SystemMetrics D
  pub received_fields : List Bytes
  pub expected_process_count : ℕ
  pub process_count_seen : Bool

module _ {D : Type 0} (F : Float D) where
  unfoldable pub parse_process : Bytes → Result ParseError (ProcessMetric D)
  parse_process value = do
    (f₀, v₁) ← next_field value
    (f₁, v₂) ← next_field v₁
    (f₂, v₃) ← next_field v₂
    (f₃, name) ← next_field v₃
    pid ← parse_int f₀ (codes "process.pid")
    if is_negative pid then err negative_pid else do
      cpu ← parse_double F f₁ (codes "process.cpu_usage_percent")
      memory ← parse_double F f₂ (codes "process.memory_usage_percent")
      resident ← parse_uint64 f₃ (codes "process.resident_memory_kb")
      if is_empty name
          then err empty_process_name
          else ok (record {
            pid = pid;
            name = name;
            cpu_usage_percent = cpu;
            memory_usage_percent = memory;
            resident_memory_kb = resident;
          })

  -- A text that must not be empty.
  abbrev text_of : Bytes → Bytes → Result ParseError Bytes
  text_of value key = if is_empty value then err (empty_value key) else ok value

  abbrev put : Parsing D → SystemMetrics D → Parsing D
  put st m = record st { metrics = m }

  -- The chain of tests on the key, from the network's fields on.
  unfoldable pub set_network : Bytes → Bytes → Parsing D → Result ParseError (Parsing D)
  set_network key value st =
      let m = st.metrics in
      if bytes_eq key (codes "network_interface")
      then (text_of value key >>= λ v. ok (put st (record m { network_interface = v })))
      else if bytes_eq key (codes "network_rx_bytes_per_second")
      then (parse_double F value key >>= λ v.
          ok (put st (record m { network_rx_bytes_per_second = v })))
      else if bytes_eq key (codes "network_tx_bytes_per_second")
      then (parse_double F value key >>= λ v.
          ok (put st (record m { network_tx_bytes_per_second = v })))
      else if bytes_eq key (codes "sample_interval_seconds")
      then (parse_double F value key >>= λ v.
          if F.leb v (F.of_nat 0)
          then err (not_positive key)
          else ok (put st (record m { sample_interval_seconds = v })))
      else if bytes_eq key (codes "process_count")
      then (parse_size value key >>= λ v.
          ok (record st { expected_process_count = v; process_count_seen = true }))
      else err (unknown_field key)

  -- The chain from the load averages on.
  unfoldable pub set_load : Bytes → Bytes → Parsing D → Result ParseError (Parsing D)
  unfolding set_network
  set_load key value st =
      let m = st.metrics in
      if bytes_eq key (codes "load_1")
      then (parse_double F value key >>= λ v. ok (put st (record m { load1 = v })))
      else if bytes_eq key (codes "load_5")
      then (parse_double F value key >>= λ v. ok (put st (record m { load5 = v })))
      else if bytes_eq key (codes "load_15")
      then (parse_double F value key >>= λ v. ok (put st (record m { load15 = v })))
      else if bytes_eq key (codes "disk_mount")
      then (text_of value key >>= λ v. ok (put st (record m { disk_mount_point = v })))
      else if bytes_eq key (codes "disk_total_bytes")
      then (parse_uint64 value key >>= λ v. ok (put st (record m { disk_total_bytes = v })))
      else if bytes_eq key (codes "disk_used_bytes")
      then (parse_uint64 value key >>= λ v. ok (put st (record m { disk_used_bytes = v })))
      else if bytes_eq key (codes "disk_available_bytes")
      then (parse_uint64 value key >>= λ v. ok (put st (record m { disk_available_bytes = v })))
      else if bytes_eq key (codes "disk_usage_percent")
      then (parse_double F value key >>= λ v. ok (put st (record m { disk_usage_percent = v })))
      else set_network key value st

  -- The whole chain.
  unfoldable pub set_field : Bytes → Bytes → Parsing D → Result ParseError (Parsing D)
  unfolding set_load
  set_field key value st =
      let m = st.metrics in
      if bytes_eq key (codes "hostname")
      then (text_of value key >>= λ v. ok (put st (record m { hostname = v })))
      else if bytes_eq key (codes "uptime_seconds")
      then (parse_uint64 value key >>= λ v. ok (put st (record m { uptime_seconds = v })))
      else if bytes_eq key (codes "logical_cpus")
      then (parse_size value key >>= λ v.
          if v == 0
          then err (not_positive key)
          else ok (put st (record m { logical_cpu_count = v })))
      else if bytes_eq key (codes "cpu_usage_percent")
      then (parse_double F value key >>= λ v. ok (put st (record m { cpu_usage_percent = v })))
      else if bytes_eq key (codes "memory_total_kb")
      then (parse_uint64 value key >>= λ v. ok (put st (record m { memory_total_kb = v })))
      else if bytes_eq key (codes "memory_used_kb")
      then (parse_uint64 value key >>= λ v. ok (put st (record m { memory_used_kb = v })))
      else if bytes_eq key (codes "memory_available_kb")
      then (parse_uint64 value key >>= λ v. ok (put st (record m { memory_available_kb = v })))
      else if bytes_eq key (codes "memory_usage_percent")
      then (parse_double F value key >>= λ v. ok (put st (record m { memory_usage_percent = v })))
      else set_load key value st

  abbrev pub add_process : Parsing D → ProcessMetric D → Parsing D
  add_process st p =
      put st (record st.metrics { top_processes = st.metrics.top_processes ++ p ∷ [] })

  -- What a round of the loop does with a key and a value.
  unfoldable pub parse_entry : Bytes → Bytes → Parsing D → Result ParseError (Parsing D)
  parse_entry key value st =
      if is_empty key
      then err empty_name
      else if bytes_eq key (codes "process")
      then (parse_process value >>= λ p. ok (add_process st p))
      else mark_required_field st.received_fields key >>= λ fields.
          set_field key value (record st { received_fields = fields })

  abbrev parse_cut : Bytes → Option (Bytes × Bytes) → Parsing D → Result ParseError (Parsing D)
  parse_cut line none st = err (malformed_line line)
  parse_cut line (some (key, value)) st = parse_entry key value st

  -- One round of the loop over the lines.
  unfoldable pub parse_line : Bytes → Parsing D → Result ParseError (Parsing D)
  parse_line raw st =
      let line = strip_cr raw in if is_empty line then ok st else parse_cut line (cut b'=' line) st

  unfoldable pub parse_lines : List Bytes → Parsing D → Result ParseError (Parsing D)
  parse_lines [] st = ok st
  parse_lines (l ∷ ls) st = parse_line l st >>= parse_lines ls

  -- What the default member initialisers give.
  abbrev pub initial_metrics : SystemMetrics D
  initial_metrics =
      let zero = F.of_nat 0 in
      record {
        hostname = [];
        uptime_seconds = 0;
        logical_cpu_count = 0;
        cpu_usage_percent = zero;
        memory_total_kb = 0;
        memory_used_kb = 0;
        memory_available_kb = 0;
        memory_usage_percent = zero;
        load1 = zero;
        load5 = zero;
        load15 = zero;
        disk_mount_point = [];
        disk_total_bytes = 0;
        disk_used_bytes = 0;
        disk_available_bytes = 0;
        disk_usage_percent = zero;
        network_interface = [];
        network_rx_bytes_per_second = zero;
        network_tx_bytes_per_second = zero;
        sample_interval_seconds = zero;
        top_processes = [];
      }

  abbrev pub initial : Parsing D
  initial = record {
    metrics = initial_metrics;
    received_fields = [];
    expected_process_count = 0;
    process_count_seen = false;
  }

  -- The checks behind the loop.
  unfoldable pub finish : Parsing D → Result ParseError (SystemMetrics D)
  finish st = verify_required_fields st.received_fields >>= λ _.
      if not st.process_count_seen
      then err no_process_count
      else if not (length st.metrics.top_processes == st.expected_process_count)
      then err (count_mismatch st.expected_process_count (length st.metrics.top_processes))
      else ok st.metrics

  -- The version line, and the loop behind it.
  abbrev pub parse_body : List Bytes → Result ParseError (Parsing D)
  parse_body [] = err no_version
  parse_body (first ∷ ls) =
      let version = strip_cr first in
      if not (bytes_eq version (codes "LMONITOR/1"))
      then err (unsupported_version version)
      else parse_lines ls initial

  unfoldable pub deserialize : Bytes → Result ParseError (SystemMetrics D)
  deserialize payload =
      if is_empty payload then err empty_payload else parse_body (lines payload) >>= finish
