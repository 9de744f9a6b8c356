-- ===== src/Collector/Cpu.antt =====
-- include/collector/CpuCollector.h and src/collector/CpuCollector.cpp, on the text of /proc/stat. The
-- counters are uint64_t.
pub mod Usage
pub mod Reading
use lmonitor.Base.{
  ℕ, ◌+◌, ◌-◌, ◌%◌, ◌^◌, not, List, [], ◌∷◌, Option, none, some, Result, ok, err, if◌then◌else◌,
  ◌==◌,
}
use lmonitor.Base.Text.{Bytes, codes, bytes_eq}
use lmonitor.Base.Lines.{lines}
use lmonitor.Base.Number.{stoull, NumberError, invalid_argument, out_of_range}
use lmonitor.Base.Words.{word}
use lmonitor.Float.{Float}

pub record CpuTimes : Type 0 where
  pub user : ℕ
  pub nice : ℕ
  pub system : ℕ
  pub idle : ℕ
  pub iowait : ℕ
  pub irq : ℕ
  pub softirq : ℕ
  pub steal : ℕ

-- std::runtime_error of `readCpuTimes`
pub data CpuError : Type 0 where
  not_open not_read invalid_format : CpuError

unfoldable pub total : CpuTimes → ℕ
total t = (t.user + t.nice + t.system + t.idle + t.iowait + t.irq + t.softirq + t.steal) % 2 ^ 64

unfoldable pub idle_time : CpuTimes → ℕ
idle_time t = (t.idle + t.iowait) % 2 ^ 64

-- The difference of two uint64_t.
abbrev pub difference : ℕ → ℕ → ℕ
difference a b = (2 ^ 64 + a - b) % 2 ^ 64

unfoldable pub calculate_usage : {D : Type 0} → Float D → CpuTimes → CpuTimes → D
calculate_usage F previous current =
    let total_delta = difference (total current) (total previous) in
    let idle_delta = difference (idle_time current) (idle_time previous) in
    if total_delta == 0
    then F.of_nat 0
    else F.div (F.mul (F.of_nat 100) (F.of_nat (difference total_delta idle_delta)))
        (F.of_nat total_delta)

-- What `stoull` leaves of the stream; a failed extraction stores 0, or the largest value.
abbrev extracted : Result NumberError (ℕ × Bytes) → ℕ × Option Bytes
extracted (ok (n, rest)) = (n, some rest)
extracted (err invalid_argument) = (0, none)
extracted (err out_of_range) = (2 ^ 64 - 1, none)

-- `iss >> counter`, on what is left, or on a stream that has failed, which leaves the 0 that is there.
abbrev pub next_counter : Option Bytes → ℕ × Option Bytes
next_counter none = (0, none)
next_counter (some s) = extracted (stoull s)

-- The eight counters, one after the other.
abbrev pub read_counters : Option Bytes → CpuTimes
read_counters s =
    let (user, s₁) = next_counter s in
    let (nice, s₂) = next_counter s₁ in
    let (system, s₃) = next_counter s₂ in
    let (idle, s₄) = next_counter s₃ in
    let (iowait, s₅) = next_counter s₄ in
    let (irq, s₆) = next_counter s₅ in
    let (softirq, s₇) = next_counter s₆ in
    let (steal, s₈) = next_counter s₇ in
    record {
      user = user;
      nice = nice;
      system = system;
      idle = idle;
      iowait = iowait;
      irq = irq;
      softirq = softirq;
      steal = steal;
    }

abbrev pub read_line : Bytes → Result CpuError CpuTimes
read_line line =
    let (label, rest) = word line in
    if not (bytes_eq label (codes "cpu"))
    then err invalid_format
    else ok (read_counters (some rest))

-- `none` for a file that does not open.
unfoldable pub read_cpu_times : Option Bytes → Result CpuError CpuTimes
read_cpu_times none = err not_open
read_cpu_times (some text) = elim (lines text) [
  | [] ↦ err not_read
  | ◌∷◌ line rest ↦ read_line line
]
