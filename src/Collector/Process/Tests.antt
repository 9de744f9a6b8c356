-- ===== src/Collector/Process/Tests.antt =====
-- The processes of two samples, and the theorems about them at these inputs.
use lmonitor.Base.{ℕ, ◌≡◌, refl, true, List, [], ◌∷◌, ◌++◌, map, some, arith}
use mathlib.Core.List.{Memᴰ}
use lmonitor.Base.Text.{codes}
use lmonitor.Base.Lines.{has, lines}
use lmonitor.Base.Map.{lookup, insert}
use lmonitor.Base.Number.{pos, negsuc, stoi, stoull, stoll, skip_spaces, scan_digits}
use lmonitor.Base.Words.{take_word}
use lmonitor.Sample.{whole}
use lmonitor.Collector.Process.{
  ProcessInfo, total_cpu_time, by_pid, usages, calculate_usage, ProcEntry, collect_snapshots,
  is_pid_directory, snapshot, read_process_name, read_process_cpu_times, read_process_memory,
  find_memory,
}
use lmonitor.Collector.Process.Usage.{IsDescending, Reported, calculate_usage-Reported}
use lmonitor.Collector.Process.Reading.{Stat, IsStat, stat_text, read_process_cpu_times-text}
use lmonitor.Collector.Process.Example.{
  before, now, before-IsUnique, place, place_all, place_all-SortsDescending,
}

abbrev report : List (ProcessInfo ℕ)
report = calculate_usage whole place_all before now 100 1000 4

calculate_usage-Reported_example :
    IsDescending whole report
    × ((info : ProcessInfo ℕ)
        → (Memᴰ info report → Reported whole 100 1000 4 before now info)
          × (Reported whole 100 1000 4 before now info → Memᴰ info report))
calculate_usage-Reported_example =
    calculate_usage-Reported whole place_all before now 100 1000 4 place_all-SortsDescending
      before-IsUnique (omega arith) (omega arith) (omega arith)

-- Half of one processor in four is 200 percent of one.
report_pids : map (λ p. p.cpu_usage) report ≡ 200 ∷ 80 ∷ []
unfolding calculate_usage usages by_pid insert lookup total_cpu_time place_all place
report_pids = refl

abbrev worker : Stat
worker = record {
  state = b'S';
  ids = pos 1 ∷ pos 77 ∷ pos 77 ∷ pos 0 ∷ negsuc 0 ∷ [];
  faults = 4194304 ∷ 10 ∷ 0 ∷ 3 ∷ 0 ∷ [];
  user = 120;
  system = 30;
  counts = pos 0 ∷ pos 0 ∷ pos 20 ∷ pos 0 ∷ pos 1 ∷ pos 0 ∷ [];
  start = 8800;
}

worker-IsStat : IsStat worker
worker-IsStat = (
  refl,
  ground arith,
  refl,
  ground arith,
  refl,
  ground arith,
  omega arith,
  omega arith,
  refl,
  ground arith,
  omega arith,
)

read_process_cpu_times-text_example :
    read_process_cpu_times (
      some
        ((codes "77 (a) b (c" ++ b')' ∷ b' ' ∷ stat_text worker (codes " 1024 5")) ++ b'\n' ∷ []))
    ≡ some (120, 30, 8800)
unfolding has
read_process_cpu_times-text_example =
    read_process_cpu_times-text (codes "77 (a) b (c") worker (codes " 1024 5") [] worker-IsStat refl
      refl refl refl

abbrev proc : List ProcEntry
proc =
    record {
      is_directory = true;
      filename = codes "77";
      comm = some (codes "sh\n");
      stat = some (codes "77 (sh) S 1 77 77 0 -1 0 0 0 0 0 12 3 0 0 20 0 1 0 88 0\n");
      status = some (codes "Name:\tsh\nVmRSS:\t  2048 kB\nThreads:\t1\n");
    }
    ∷ record {
      is_directory = true;
      filename = codes "net";
      comm = some [];
      stat = some [];
      status = some [];
    }
    ∷ []

collect_proc :
    collect_snapshots proc
    ≡ record {
      pid = pos 77;
      name = codes "sh";
      user_time = 12;
      system_time = 3;
      start_time = 88;
      resident_memory_kb = 2048;
    }
      ∷ []
unfolding collect_snapshots is_pid_directory snapshot stoi skip_spaces scan_digits read_process_name
    lines read_process_cpu_times stoull stoll read_process_memory find_memory take_word
collect_proc = refl
