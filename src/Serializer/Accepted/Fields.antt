-- ===== src/Serializer/Accepted/Fields.antt =====
-- One line of a payload in src/serializer/MetricsDeserializer.cpp: the fields that are validated.
use lmonitor.Base.{◌≡◌, ◌≢◌, false, [], ok, arith, is_empty_cases}
use lmonitor.Base.Text.{Bytes, codes, bytes_eq}
use lmonitor.Float.{Float}
use lmonitor.Serializer.Reader.{Parsing, set_field, set_load, set_network}

module _ {D : Type 0} (F : Float D) where
  pub set_field-hostname :
      (v : Bytes) (st st' : Parsing D)
      → set_field F (codes "hostname") v st ≡ ok st'
      → st'.metrics.hostname ≢ []
  unfolding set_field set_load set_network bytes_eq
  set_field-hostname v st st' e = ground (arith, is_empty_cases v)

  pub set_field_keeps_hostname :
      (key v : Bytes) (st st' : Parsing D)
      → bytes_eq key (codes "hostname") ≡ false
      → set_field F key v st ≡ ok st'
      → st'.metrics.hostname ≡ st.metrics.hostname
  unfolding set_field set_load set_network
  set_field_keeps_hostname key v st st' ne e = ground arith

  pub set_field-cpus :
      (v : Bytes) (st st' : Parsing D)
      → set_field F (codes "logical_cpus") v st ≡ ok st'
      → st'.metrics.logical_cpu_count ≢ 0
  unfolding set_field set_load set_network bytes_eq
  set_field-cpus v st st' e = ground (arith, is_empty_cases v)

  pub set_field_keeps_cpus :
      (key v : Bytes) (st st' : Parsing D)
      → bytes_eq key (codes "logical_cpus") ≡ false
      → set_field F key v st ≡ ok st'
      → st'.metrics.logical_cpu_count ≡ st.metrics.logical_cpu_count
  unfolding set_field set_load set_network
  set_field_keeps_cpus key v st st' ne e = ground arith

  pub set_field-mount :
      (v : Bytes) (st st' : Parsing D)
      → set_field F (codes "disk_mount") v st ≡ ok st'
      → st'.metrics.disk_mount_point ≢ []
  unfolding set_field set_load set_network bytes_eq
  set_field-mount v st st' e = ground (arith, is_empty_cases v)

  pub set_field_keeps_mount :
      (key v : Bytes) (st st' : Parsing D)
      → bytes_eq key (codes "disk_mount") ≡ false
      → set_field F key v st ≡ ok st'
      → st'.metrics.disk_mount_point ≡ st.metrics.disk_mount_point
  unfolding set_field set_load set_network
  set_field_keeps_mount key v st st' ne e = ground arith

  pub set_field-network :
      (v : Bytes) (st st' : Parsing D)
      → set_field F (codes "network_interface") v st ≡ ok st'
      → st'.metrics.network_interface ≢ []
  unfolding set_field set_load set_network bytes_eq
  set_field-network v st st' e = ground (arith, is_empty_cases v)

  pub set_field_keeps_network :
      (key v : Bytes) (st st' : Parsing D)
      → bytes_eq key (codes "network_interface") ≡ false
      → set_field F key v st ≡ ok st'
      → st'.metrics.network_interface ≡ st.metrics.network_interface
  unfolding set_field set_load set_network
  set_field_keeps_network key v st st' ne e = ground arith

  pub set_field-interval :
      (v : Bytes) (st st' : Parsing D)
      → set_field F (codes "sample_interval_seconds") v st ≡ ok st'
      → F.leb st'.metrics.sample_interval_seconds (F.of_nat 0) ≡ false
  unfolding set_field set_load set_network bytes_eq
  set_field-interval v st st' e = ground (arith, is_empty_cases v)

  pub set_field_keeps_interval :
      (key v : Bytes) (st st' : Parsing D)
      → bytes_eq key (codes "sample_interval_seconds") ≡ false
      → set_field F key v st ≡ ok st'
      → st'.metrics.sample_interval_seconds ≡ st.metrics.sample_interval_seconds
  unfolding set_field set_load set_network
  set_field_keeps_interval key v st st' ne e = ground arith

  pub set_field_keeps_fields :
      (key v : Bytes) (st st' : Parsing D)
      → set_field F key v st ≡ ok st'
      → st'.received_fields ≡ st.received_fields
  unfolding set_field set_load set_network
  set_field_keeps_fields key v st st' e = ground arith

  pub set_field_keeps_processes :
      (key v : Bytes) (st st' : Parsing D)
      → set_field F key v st ≡ ok st'
      → st'.metrics.top_processes ≡ st.metrics.top_processes
  unfolding set_field set_load set_network
  set_field_keeps_processes key v st st' e = ground arith
