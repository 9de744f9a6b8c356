-- ===== src/Collector/Process.antt =====
-- include/collector/ProcessCollector.h and src/collector/ProcessCollector.cpp. The entries of /proc,
-- with the texts of their files, and std::sort are arguments; `none` is a file that does not open.
pub mod Usage
pub mod Reading
pub mod Example
mod Tests
use lmonitor.Base.{
  ℕ, zero, suc, ◌+◌, ◌-◌, ◌%◌, ◌^◌, not, ◌&&◌, ◌||◌, List, [], ◌∷◌, ◌++◌, Option, none, some,
  Result, ok, err, Bool, true, false, if◌then◌else◌, ◌==◌, ltb, is_empty,
}
use lmonitor.Base.Text.{Bytes, codes, bytes_eq}
use lmonitor.Base.Lines.{lines}
use lmonitor.Base.Map.{Map, lookup, insert}
use lmonitor.Base.Number.{ℤ, is_digit, skip_spaces, stoi, stoll, stoull}
use lmonitor.Base.Signed.{int_key, int_eq}
use lmonitor.Base.Words.{word}
use lmonitor.Float.{Float}

pub record ProcessSnapshot : Type 0 where
  pub pid : ℤ
  pub name : Bytes
  pub user_time : ℕ
  pub system_time : ℕ
  pub start_time : ℕ
  pub resident_memory_kb : ℕ

pub record ProcessInfo (D : Type 0) : Type 0 where
  pub pid : ℤ
  pub name : Bytes
  pub cpu_usage : D
  pub memory_usage : D
  pub resident_memory_kb : ℕ

unfoldable pub total_cpu_time : ProcessSnapshot → ℕ
total_cpu_time p = (p.user_time + p.system_time) % 2 ^ 64

-- An entry of /proc with its files comm, stat and status.
pub record ProcEntry : Type 0 where
  pub is_directory : Bool
  pub filename : Bytes
  pub comm : Option Bytes
  pub stat : Option Bytes
  pub status : Option Bytes

abbrev pub all_digits : Bytes → Bool
all_digits [] = true
all_digits (c ∷ s) = is_digit c && all_digits s

unfoldable pub is_pid_directory : ProcEntry → Bool
is_pid_directory e = e.is_directory && not (is_empty e.filename) && all_digits e.filename

-- `std::getline(file, line)`
abbrev pub first_line : Option Bytes → Option Bytes
first_line none = none
first_line (some text) = elim (lines text) [ [] ↦ none | l ∷ ls ↦ some l ]

unfoldable pub read_process_name : Option Bytes → Option Bytes
read_process_name file = elim (first_line file) [
  | none ↦ none
  | some name ↦ if is_empty name then none else some name
]

-- The text behind the last `c`.
abbrev pub behind_last : ℕ → Bytes → Option Bytes
behind_last c [] = none
behind_last c (x ∷ s) = elim (behind_last c s) [
  | some t ↦ some t
  | none ↦ if x == c then some s else none
]

-- `line.substr(rightParen + 2)`, where the guard before it demands a character.
abbrev pub behind_paren : Bytes → Option Bytes
behind_paren line = elim (behind_last b')' line) [
  | none ↦ none
  | some [] ↦ none
  | some (x ∷ []) ↦ none
  | some (x ∷ y ∷ s) ↦ some (y ∷ s)
]

-- `iss >> state`
abbrev pub skip_char : Bytes → Option Bytes
skip_char s = elim (skip_spaces s) [ [] ↦ none | c ∷ t ↦ some t ]

-- `iss >>` into so many int, unsigned long and int64_t variables that are not used.
abbrev pub skip_ints : ℕ → Bytes → Option Bytes
skip_ints zero s = some s
skip_ints (suc n) s = elim (stoi s) [ err e ↦ none | ok (v, rest) ↦ skip_ints n rest ]

abbrev pub skip_unsigned : ℕ → Bytes → Option Bytes
skip_unsigned zero s = some s
skip_unsigned (suc n) s = elim (stoull s) [ err e ↦ none | ok (v, rest) ↦ skip_unsigned n rest ]

abbrev pub skip_longs : ℕ → Bytes → Option Bytes
skip_longs zero s = some s
skip_longs (suc n) s = elim (stoll s) [ err e ↦ none | ok (v, rest) ↦ skip_longs n rest ]

abbrev pub next_unsigned : Bytes → Option (ℕ × Bytes)
next_unsigned s = elim (stoull s) [ err e ↦ none | ok (v, rest) ↦ some (v, rest) ]

infixl 5 ◌>>=◌
abbrev pub ◌>>=◌ {ℓ κ} : {A : Type ℓ} {B : Type κ} → Option A → (A → Option B) → Option B
none >>= f = none
some a >>= f = f a

-- The fields behind the name: userTime, systemTime and startTime.
abbrev pub read_times : Bytes → Option (ℕ × ℕ × ℕ)
read_times remaining = do
  s₁ ← skip_char remaining
  s₂ ← skip_ints 5 s₁
  s₃ ← skip_unsigned 5 s₂
  user ← next_unsigned s₃
  system ← next_unsigned user.1
  s₆ ← skip_longs 6 system.1
  start ← next_unsigned s₆
  some (user.0, system.0, start.0)

unfoldable pub read_process_cpu_times : Option Bytes → Option (ℕ × ℕ × ℕ)
read_process_cpu_times file = do
  line ← first_line file
  remaining ← behind_paren line
  read_times remaining

-- `line.rfind(prefix, 0) == 0`
abbrev pub starts_with : Bytes → Bytes → Bool
starts_with [] s = true
starts_with (p ∷ ps) [] = false
starts_with (p ∷ ps) (c ∷ s) = p == c && starts_with ps s

-- `iss >> word`, which fails where there is none.
abbrev pub next_word : Bytes → Option (Bytes × Bytes)
next_word s = let (w, rest) = word s in if is_empty w then none else some (w, rest)

-- `iss >> key >> value >> unit`
abbrev pub read_entry : Bytes → Option (Bytes × ℕ × Bytes)
read_entry line = do
  key ← next_word line
  value ← next_unsigned key.1
  unit ← next_word value.1
  some (key.0, value.0, unit.1)

-- The loop over the lines of status.
unfoldable pub find_memory : List Bytes → Option ℕ
find_memory [] = none
find_memory (line ∷ ls) =
    let later = find_memory ls in
    if starts_with (codes "VmRSS:") line
    then elim (read_entry line) [ none ↦ none | some (key, value, rest) ↦ some value ]
    else later

unfoldable pub read_process_memory : Option Bytes → Option ℕ
read_process_memory file = elim file [ none ↦ none | some text ↦ find_memory (lines text) ]

-- `std::stoi` of the name of the directory; an exception leaves the entry out.
abbrev pub pid_of : Bytes → Option ℤ
pid_of name = elim (stoi name) [ err e ↦ none | ok (pid, rest) ↦ some pid ]

-- One entry that is a process.
unfoldable pub snapshot : ProcEntry → Option ProcessSnapshot
snapshot e = do
  pid ← pid_of e.filename
  name ← read_process_name e.comm
  times ← read_process_cpu_times e.stat
  memory ← read_process_memory e.status
  some (record {
    pid = pid;
    name = name;
    user_time = times.0;
    system_time = times.1;
    start_time = times.2;
    resident_memory_kb = memory;
  })

abbrev pub cons_snapshot : Option ProcessSnapshot → List ProcessSnapshot → List ProcessSnapshot
cons_snapshot none l = l
cons_snapshot (some p) l = p ∷ l

unfoldable pub collect_snapshots : List ProcEntry → List ProcessSnapshot
collect_snapshots [] = []
collect_snapshots (e ∷ es) =
    let later = collect_snapshots es in
    if is_pid_directory e then cons_snapshot (snapshot e) later else later

-- `previousByPid[process.pid] = &process` for each.
unfoldable pub by_pid : List ProcessSnapshot → Map ℤ ProcessSnapshot → Map ℤ ProcessSnapshot
by_pid [] m = m
by_pid (p ∷ ps) m = by_pid ps (insert p.pid p m)

-- Whether the snapshots are of one process whose time has not gone back.
abbrev pub is_same : ProcessSnapshot → ProcessSnapshot → Bool
is_same previous current =
    current.start_time == previous.start_time
    && not (ltb (total_cpu_time current) (total_cpu_time previous))

module _ {D : Type 0} (F : Float D) where
  -- `100.0 * a / b`
  abbrev pub percent : ℕ → ℕ → D
  percent a b = F.div (F.mul (F.of_nat 100) (F.of_nat a)) (F.of_nat b)

  abbrev pub info_of : ℕ → ℕ → ℕ → ProcessSnapshot → ProcessSnapshot → ProcessInfo D
  info_of total_cpu_delta total_memory_kb cpu_count previous current = record {
    pid = current.pid;
    name = current.name;
    cpu_usage =
        F.mul (percent (total_cpu_time current - total_cpu_time previous) total_cpu_delta)
          (F.of_nat cpu_count);
    memory_usage = percent current.resident_memory_kb total_memory_kb;
    resident_memory_kb = current.resident_memory_kb;
  }

  -- One round of the loop over the current snapshots.
  abbrev pub usage_of : ℕ → ℕ → ℕ → ProcessSnapshot → Option ProcessSnapshot → List (ProcessInfo D)
  usage_of delta memory cpus current none = []
  usage_of delta memory cpus current (some previous) =
      if is_same previous current then info_of delta memory cpus previous current ∷ [] else []

  unfoldable pub usages :
      ℕ → ℕ → ℕ → Map ℤ ProcessSnapshot → List ProcessSnapshot → List (ProcessInfo D)
  usages delta memory cpus m [] = []
  usages delta memory cpus m (current ∷ ps) =
      usage_of delta memory cpus current (lookup current.pid m) ++ usages delta memory cpus m ps

  -- The comparison, `a > b`.
  abbrev pub more_cpu : ProcessInfo D → ProcessInfo D → Bool
  more_cpu a b = F.geb a.cpu_usage b.cpu_usage && not (F.leb a.cpu_usage b.cpu_usage)

  -- `sort` is std::sort with the comparison by `cpuUsage`.
  unfoldable pub calculate_usage :
      (List (ProcessInfo D) → List (ProcessInfo D))
      → List ProcessSnapshot
      → List ProcessSnapshot
      → ℕ
      → ℕ
      → ℕ
      → List (ProcessInfo D)
  calculate_usage sort previous current delta memory cpus =
      if delta == 0 || memory == 0 || cpus == 0
      then []
      else sort (usages delta memory cpus (by_pid previous []) current)
