-- ===== src/Serializer/Accepted/Valid.antt =====
-- The validation in src/serializer/MetricsDeserializer.cpp, from one line to the whole payload.
use Prim.{tt}
use lmonitor.Base.{
  ok-injective, Result-cases, Bool-cases, ◌≡◌, ◌≢◌, refl, sym, subst, true, false, List, [], ◌∷◌,
  Result, ok, err, ◌>>=◌, arith, is_empty, is_empty_cases, All, All-append, Option-cases, inl, inr,
  ◌⊎◌,
}
use lmonitor.Base.Text.{Bytes, codes, bytes_eq_iff}
use lmonitor.Base.Lines.{lines, cut}
use lmonitor.Float.{Float}
use lmonitor.Model.{ProcessMetric, SystemMetrics}
use lmonitor.Serializer.Numbers.{ParseError, parse_double}
use lmonitor.Serializer.Reader.{
  Parsing, add_process, is_negative, strip_cr, parse_process, contains, mark_required_field,
  set_field, parse_entry, parse_line, parse_lines, verify, verify_required_fields, parse_body,
  initial, finish, deserialize,
}
use lmonitor.Serializer.Accepted.Fields.{
  set_field-hostname, set_field_keeps_hostname, set_field-cpus, set_field_keeps_cpus,
  set_field-mount, set_field_keeps_mount, set_field-network, set_field_keeps_network,
  set_field-interval, set_field_keeps_interval, set_field_keeps_fields, set_field_keeps_processes,
}

module _ {D : Type 0} (F : Float D) where
  -- A process with a name, a pid that is not negative and finite shares.
  pub record IsValidProcess (p : ProcessMetric D) : Type 0 where
    pub name : p.name ≢ []
    pub pid : is_negative p.pid ≡ false
    pub cpu : F.is_finite p.cpu_usage_percent ≡ true
    pub memory : F.is_finite p.memory_usage_percent ≡ true

  parse_process-IsValidProcess :
      (v : Bytes) (p : ProcessMetric D) → parse_process F v ≡ ok p → IsValidProcess p
  unfolding parse_process parse_double
  parse_process-IsValidProcess v p e = record {
    name = ground (arith, is_empty_cases p.name);
    pid = ground arith;
    cpu = ground arith;
    memory = ground arith;
  }

  -- The fields that have been read are valid.
  record IsChecked (st : Parsing D) : Type 0 where
    hostname : contains (codes "hostname") st.received_fields ≡ true → st.metrics.hostname ≢ []
    cpus :
        contains (codes "logical_cpus") st.received_fields ≡ true → st.metrics.logical_cpu_count ≢ 0
    mount :
        contains (codes "disk_mount") st.received_fields ≡ true → st.metrics.disk_mount_point ≢ []
    network :
        contains (codes "network_interface") st.received_fields ≡ true
        → st.metrics.network_interface ≢ []
    interval :
        contains (codes "sample_interval_seconds") st.received_fields ≡ true
        → F.leb st.metrics.sample_interval_seconds (F.of_nat 0) ≡ false
    processes : All IsValidProcess st.metrics.top_processes

  set_field-IsChecked :
      (key v : Bytes) (st st' : Parsing D)
      → IsChecked st
      → set_field F key v (record st { received_fields = key ∷ st.received_fields }) ≡ ok st'
      → IsChecked st'
  unfolding contains
  set_field-IsChecked key v st st' c e =
      let st₁ : Parsing D = record st { received_fields = key ∷ st.received_fields } in
      let kept = set_field_keeps_fields F key v st₁ st' e in
      record {
        hostname = ground (
          arith,
          kept,
          c.hostname,
          bytes_eq_iff key (codes "hostname"),
          set_field-hostname F v st₁ st',
          set_field_keeps_hostname F key v st₁ st',
        );
        cpus = ground (
          arith,
          kept,
          c.cpus,
          bytes_eq_iff key (codes "logical_cpus"),
          set_field-cpus F v st₁ st',
          set_field_keeps_cpus F key v st₁ st',
        );
        mount = ground (
          arith,
          kept,
          c.mount,
          bytes_eq_iff key (codes "disk_mount"),
          set_field-mount F v st₁ st',
          set_field_keeps_mount F key v st₁ st',
        );
        network = ground (
          arith,
          kept,
          c.network,
          bytes_eq_iff key (codes "network_interface"),
          set_field-network F v st₁ st',
          set_field_keeps_network F key v st₁ st',
        );
        interval = ground (
          arith,
          kept,
          c.interval,
          bytes_eq_iff key (codes "sample_interval_seconds"),
          set_field-interval F v st₁ st',
          set_field_keeps_interval F key v st₁ st',
        );
        processes =
            subst (All IsValidProcess) (sym (set_field_keeps_processes F key v st₁ st' e))
              c.processes;
      }

  add_process-IsChecked :
      (st st' : Parsing D) (r : Result ParseError (ProcessMetric D))
      → ((p : ProcessMetric D) → r ≡ ok p → IsValidProcess p)
      → IsChecked st
      → (r >>= λ p. ok (add_process F st p)) ≡ ok st'
      → IsChecked st'
  add_process-IsChecked st st' (err x) valid c e = cc
  add_process-IsChecked st st' (ok p) valid c e =
      let added : IsChecked (add_process F st p) = record {
        hostname = c.hostname;
        cpus = c.cpus;
        mount = c.mount;
        network = c.network;
        interval = c.interval;
        processes =
            All-append IsValidProcess st.metrics.top_processes (p ∷ []) c.processes
              (valid p refl, tt);
      } in
      subst IsChecked (ok-injective e) added

  parse_entry_cases :
      (key v : Bytes) (st st' : Parsing D)
      → parse_entry F key v st ≡ ok st'
      → ((parse_process F v >>= λ p. ok (add_process F st p)) ≡ ok st')
        ⊎ (set_field F key v (record st { received_fields = key ∷ st.received_fields }) ≡ ok st')
  unfolding parse_entry mark_required_field
  parse_entry_cases key v st st' e = ground arith

  parse_entry-IsChecked :
      (key v : Bytes) (st st' : Parsing D)
      → IsChecked st
      → parse_entry F key v st ≡ ok st'
      → IsChecked st'
  parse_entry-IsChecked key v st st' c e = elim (parse_entry_cases key v st st' e) [
    | inl h ↦ add_process-IsChecked st st' (parse_process F v) (parse_process-IsValidProcess v) c h
    | inr h ↦ set_field-IsChecked key v st st' c h
  ]

  parse_line_cases :
      (l : Bytes) (st st' : Parsing D)
      → parse_line F l st ≡ ok st'
      → (st ≡ st') ⊎ ((kv : Bytes × Bytes) × (parse_entry F kv.0 kv.1 st ≡ ok st'))
  unfolding parse_line
  parse_line_cases l st st' e = elim (Bool-cases (is_empty (strip_cr l))) [
    | inl blank ↦ inl (ground arith)
    | inr more ↦ elim (Option-cases (cut b'=' (strip_cr l))) [
      | inl none_there ↦ absurd (ground arith)
      | inr (kv, there) ↦ inr (kv, ground arith)
    ]
  ]

  parse_lines-IsChecked :
      (ls : List Bytes) (st st' : Parsing D)
      → IsChecked st
      → parse_lines F ls st ≡ ok st'
      → IsChecked st'
  unfolding parse_lines
  parse_lines-IsChecked [] st st' c e = subst IsChecked (ok-injective e) c
  parse_lines-IsChecked (l ∷ ls) st st' c e = elim (Result-cases (parse_line F l st)) [
    | inl (x, h) ↦ absurd (ground arith)
    | inr (mid, h) ↦
        let checked : IsChecked mid = elim (parse_line_cases l st mid h) [
          | inl same ↦ subst IsChecked same c
          | inr (kv, g) ↦ parse_entry-IsChecked kv.0 kv.1 st mid c g
        ] in
        parse_lines-IsChecked ls mid st' checked (ground arith)
  ]

  initial-IsChecked : IsChecked (initial F)
  unfolding contains
  initial-IsChecked = record {
    hostname = λ h. cc;
    cpus = λ h. cc;
    mount = λ h. cc;
    network = λ h. cc;
    interval = λ h. cc;
    processes = tt;
  }

  body-IsChecked : (ls : List Bytes) (st : Parsing D) → parse_body F ls ≡ ok st → IsChecked st
  body-IsChecked [] st e = absurd (ground arith)
  body-IsChecked (l ∷ ls) st e =
      parse_lines-IsChecked ls (initial F) st initial-IsChecked (ground arith)

  -- What the server may rely on.
  pub record IsValid (m : SystemMetrics D) : Type 0 where
    pub hostname : m.hostname ≢ []
    pub cpus : m.logical_cpu_count ≢ 0
    pub mount : m.disk_mount_point ≢ []
    pub network : m.network_interface ≢ []
    pub interval : F.leb m.sample_interval_seconds (F.of_nat 0) ≡ false
    pub processes : All IsValidProcess m.top_processes

  finish-IsValid :
      (st : Parsing D) (m : SystemMetrics D) → IsChecked st → finish F st ≡ ok m → IsValid m
  unfolding finish verify_required_fields verify
  finish-IsValid st m c e =
      let same : st.metrics ≡ m = ground arith in
      subst IsValid same (record {
        hostname = c.hostname (ground arith);
        cpus = c.cpus (ground arith);
        mount = c.mount (ground arith);
        network = c.network (ground arith);
        interval = c.interval (ground arith);
        processes = c.processes;
      })

  -- Whatever payload the server accepts, the metrics have a host name, a mount point, an interface,
  -- at least one CPU, and an interval that is not zero or less; and each process has a name, a pid
  -- that is not negative, and shares that are finite.
  pub deserialize-IsValid :
      (payload : Bytes) (m : SystemMetrics D) → deserialize F payload ≡ ok m → IsValid m
  unfolding deserialize
  deserialize-IsValid payload m e = elim (Result-cases (parse_body F (lines payload))) [
    | inl (x, h) ↦ absurd (ground arith)
    | inr (st, h) ↦ finish-IsValid st m (body-IsChecked (lines payload) st h) (ground arith)
  ]
