-- ===== src/Collector/Tests.antt =====
-- The collectors at work, and the theorems about them at these inputs.
use lmonitor.Base.{
  [], List, ℕ, ◌+◌, ◌-◌, ◌^◌, ◌≡◌, refl, ◌∷◌, ◌++◌, some, ok, arith, if◌then◌else◌, ◌==◌,
}
use lmonitor.Base.Text.{codes, bytes_eq}
use lmonitor.Base.Lines.{cut, has}
use lmonitor.Sample.{whole}
use lmonitor.Collector.Network.{collect_lines}
use lmonitor.Collector.Network.Reading.{Column, IsOther, line_for, collect_lines-line_for}
use lmonitor.Collector.Cpu.{CpuTimes, total, idle_time, calculate_usage, read_cpu_times}
use lmonitor.Collector.Cpu.Usage.{busy, waited, after, share, calculate_usage-after}
use lmonitor.Collector.Cpu.Reading.{counters_text, read_cpu_times-text}
use lmonitor.Collector.Host.{collect_memory, used_kb}
use lmonitor.Collector.Host.Memory.{
  Entry, entry_text, entries_text, total_entry, available_entry, memory_of, collect_memory-text,
}

abbrev times : ℕ → ℕ → CpuTimes
times user iowait = record {
  user = user;
  nice = 0;
  system = 10;
  idle = 100;
  iowait = iowait;
  irq = 1;
  softirq = 2;
  steal = 0;
}

-- A user counter that wraps around.
calculate_usage-after_example :
    let p = times (2 ^ 64 - 1) 5 in
    let d = times 50 5 in
    calculate_usage whole p (after p d)
    ≡ (if busy d + waited d == 0 then 0 else share whole (busy d) (busy d + waited d))
calculate_usage-after_example =
    calculate_usage-after whole (times (2 ^ 64 - 1) 5) (times 50 5) (omega arith)

-- The I/O wait goes back by twenty ticks while forty are used: 150 percent.
over_all : calculate_usage whole (times 100 50) (times 160 30) ≡ 150
unfolding calculate_usage total idle_time
over_all = refl

read_cpu_times-text_example :
    read_cpu_times
      (some ((codes "cpu " ++ counters_text (times 7 8) (codes " 0 0")) ++ b'\n' ∷ codes "cpu0 1"))
    ≡ ok (times 7 8)
unfolding has
read_cpu_times-text_example =
    read_cpu_times-text (times 7 8) (codes " 0 0") (codes "cpu0 1") (omega arith) refl refl

abbrev seven : List Column
seven = (7, 1) ∷ (3, 2) ∷ (3, 3) ∷ (3, 4) ∷ (4, 5) ∷ (9, 6) ∷ (8, 7) ∷ []

eth0-IsOther : IsOther (codes "eth0") (codes "    lo: 12 1 0 0 0 0 0 0 12 1 0 0 0 0 0 0")
unfolding cut
eth0-IsOther e = cc

collect_lines-line_for_example :
    collect_lines (codes "eth0") (
      (codes "    lo: 12 1 0 0 0 0 0 0 12 1 0 0 0 0 0 0" ∷ [])
      ++ line_for (codes "  ") (codes "eth0") ((4, 1000) ∷ (seven ++ (4, 2000) ∷ seven)) [] ∷ [])
    ≡ ok (record { interface_name = codes "eth0"; rx_bytes = 1000; tx_bytes = 2000 })
unfolding has
collect_lines-line_for_example =
    collect_lines-line_for (codes "    lo: 12 1 0 0 0 0 0 0 12 1 0 0 0 0 0 0" ∷ []) (codes "  ")
      (codes "eth0") 4 1000 4 2000 seven seven [] [] (eth0-IsOther, tt) (λ e. cc) refl
      (refl, (refl, tt)) (refl, (refl, (refl, (refl, tt)))) (omega arith) (omega arith) refl refl tt

abbrev free_entry : List Entry
free_entry = (codes "MemFree:", 5, 300) ∷ []

collect_memory-text_example :
    (collect_memory (
        some (
          entry_text
            (total_entry 7 1000)
            (entries_text free_entry (entry_text (available_entry 3 600) (codes "Buffers:")))))
      ≡ ok (memory_of 1000 600))
    × (used_kb (memory_of 1000 600) + 600 ≡ 1000)
unfolding bytes_eq
collect_memory-text_example =
    collect_memory-text 7 1000 3 600 free_entry (codes "Buffers:") (omega arith) (omega arith)
      (omega arith) (omega arith) (ground arith) (ground arith)
