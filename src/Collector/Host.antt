-- ===== src/Collector/Host.antt =====
-- The memory, load, disk and system collectors of include/collector/ and src/collector/, on the texts
-- of their files; `none` is a file that does not open, or a system call that fails.
pub mod Memory
use lmonitor.Base.{
  ℕ, zero, suc, ◌+◌, ◌*◌, ◌%◌, ◌^◌, not, ◌&&◌, ◌||◌, List, [], ◌∷◌, Option, none, some, Result, ok,
  err, Bool, ◌>>=◌, true, false, if◌then◌else◌, ◌==◌, is_empty, length,
}
use lmonitor.Base.Text.{Bytes, codes, bytes_eq}
use lmonitor.Float.{Float}
use lmonitor.Collector.Cpu.{difference}
use lmonitor.Collector.Process.{read_entry}

-- std::runtime_error
pub data HostError : Type 0 where
  not_available parse_failed : HostError

pub record MemoryInfo : Type 0 where
  pub total_kb : ℕ
  pub available_kb : ℕ

unfoldable pub used_kb : MemoryInfo → ℕ
used_kb m = difference m.total_kb m.available_kb

unfoldable pub memory_percent : {D : Type 0} → Float D → MemoryInfo → D
unfolding used_kb
memory_percent F m =
    if m.total_kb == 0
    then F.of_nat 0
    else F.div (F.mul (F.of_nat 100) (F.of_nat (used_kb m))) (F.of_nat m.total_kb)

-- One entry of /proc/meminfo.
abbrev pub with_entry : Bytes → ℕ → MemoryInfo → MemoryInfo
with_entry key value m =
    if bytes_eq key (codes "MemTotal:")
    then record m { total_kb = value }
    else if bytes_eq key (codes "MemAvailable:")
    then record m { available_kb = value }
    else m

abbrev pub is_complete : MemoryInfo → Bool
is_complete m = not (m.total_kb == 0) && not (m.available_kb == 0)

-- `while (file >> key >> value >> unit)`. A round takes a byte at least, so the length of the text is
-- fuel enough.
unfoldable pub memory_rounds : ℕ → Bytes → MemoryInfo → MemoryInfo
memory_rounds zero text m = m
memory_rounds (suc fuel) text m = elim (read_entry text) [
  | none ↦ m
  | some (key, value, rest) ↦
      let m₁ = with_entry key value m in
      let later = memory_rounds fuel rest m₁ in if is_complete m₁ then m₁ else later
]

abbrev pub checked : MemoryInfo → Result HostError MemoryInfo
checked m = if m.total_kb == 0 || m.available_kb == 0 then err parse_failed else ok m

unfoldable pub collect_memory : Option Bytes → Result HostError MemoryInfo
collect_memory none = err not_available
collect_memory (some text) =
    checked (memory_rounds (length text) text (record { total_kb = 0; available_kb = 0 }))

pub record DiskInfo : Type 0 where
  pub mount_point : Bytes
  pub total_bytes : ℕ
  pub used_bytes : ℕ
  pub available_bytes : ℕ

unfoldable pub disk_percent : {D : Type 0} → Float D → DiskInfo → D
disk_percent F d =
    let usable = (d.used_bytes + d.available_bytes) % 2 ^ 64 in
    if usable == 0
    then F.of_nat 0
    else F.div (F.mul (F.of_nat 100) (F.of_nat d.used_bytes)) (F.of_nat usable)

-- The fields of `struct statvfs` that are used: f_frsize, f_blocks, f_bavail and f_bfree.
pub record Statvfs : Type 0 where
  pub fragment_size : ℕ
  pub blocks : ℕ
  pub available : ℕ
  pub free : ℕ

unfoldable pub collect_disk : Bytes → Option Statvfs → Result HostError DiskInfo
collect_disk path none = err not_available
collect_disk path (some fs) =
    let total = fs.blocks * fs.fragment_size % 2 ^ 64 in
    ok (record {
      mount_point = path;
      total_bytes = total;
      used_bytes = difference total (fs.free * fs.fragment_size % 2 ^ 64);
      available_bytes = fs.available * fs.fragment_size % 2 ^ 64;
    })

pub record LoadInfo (D : Type 0) : Type 0 where
  pub load1 : D
  pub load5 : D
  pub load15 : D

pub record SystemInfo : Type 0 where
  pub hostname : Bytes
  pub uptime_seconds : ℕ

-- `stream >> x` for a double `x`, which is an argument of the readers below.
abbrev pub Extract : Type 0 → Type 0
Extract D = Bytes → Option (D × Bytes)

module _ {D : Type 0} (extract : Extract D) where
  abbrev pub next_double : Bytes → Result HostError (D × Bytes)
  next_double s = elim (extract s) [ none ↦ err parse_failed | some p ↦ ok p ]

  unfoldable pub collect_load : Option Bytes → Result HostError (LoadInfo D)
  collect_load none = err not_available
  collect_load (some text) = do
    a ← next_double text
    b ← next_double a.1
    c ← next_double b.1
    ok (record { load1 = a.0; load5 = b.0; load15 = c.0 })

  -- `truncate` is the conversion of double to uint64_t.
  unfoldable pub collect_system :
      (D → ℕ) → Option Bytes → Option Bytes → Result HostError SystemInfo
  collect_system truncate none uptime = err not_available
  collect_system truncate (some hostname) none = err not_available
  collect_system truncate (some hostname) (some text) = do
    seconds ← next_double text
    ok (record { hostname = hostname; uptime_seconds = truncate seconds.0 })
