-- ===== src/Agent/Sampling/Tests.antt =====
-- Rounds of an agent, and the theorems about them at these inputs.
use lmonitor.Base.{ℕ, ◌≤◌, ◌≡◌, ◌⊎◌, refl, false, List, map, err, some, All, length, arith}
use mathlib.Core.List.{Memᴰ}
use lmonitor.Base.Text.{codes}
use lmonitor.Base.Number.{pos}
use lmonitor.Sample.{whole}
use lmonitor.Collector.Cpu.{total}
use lmonitor.Collector.Process.{ProcessInfo, more_cpu}
use lmonitor.Collector.Process.Usage.{IsDescending}
use lmonitor.Collector.Process.Example.{place_all, place_all-SortsDescending, before-IsUnique}
use lmonitor.Agent.Sampling.{metric_of, create, bad_interval, no_cpu_count}
use lmonitor.Agent.Sampling.Top.{Running, measure-Top}
use lmonitor.Agent.Sampling.Example.{monitor, busy_before, busy, busy_metrics, busy-metrics}

measure-Top_example :
    (shown : List (ProcessInfo ℕ)) × (busy_metrics.top_processes ≡ map metric_of shown)
    × (length shown ≤ 5)
    × IsDescending whole shown
    × ((info : ProcessInfo ℕ)
        → Memᴰ info shown
        → Running whole place_all monitor busy_before busy info)
    × ((info : ProcessInfo ℕ)
        → Running whole place_all monitor busy_before busy info
        → Memᴰ info shown ⊎ ((length shown ≡ 5) × All (λ a. more_cpu whole info a ≡ false) shown))
unfolding total
measure-Top_example =
    measure-Top whole place_all monitor busy_before busy busy_metrics busy-metrics
      place_all-SortsDescending before-IsUnique (omega arith) (omega arith) (omega arith)

create_refuses :
    (create whole (some (codes "eth0")) (pos 0) 2 ≡ err no_cpu_count)
    × (create whole (some (codes "eth0")) (pos 4) 0 ≡ err bad_interval)
unfolding create
create_refuses = (refl, refl)
