-- ===== src/Collector/Cpu/Usage.antt =====
-- `CpuCollector::calculateUsage`, src/collector/CpuCollector.cpp, on counters that wrap around.
use lmonitor.Base.{ℕ, ◌+◌, ◌-◌, ◌%◌, ◌^◌, ◌<◌, ◌≡◌, refl, ap, ◌∙◌, arith, if◌then◌else◌, ◌==◌}
use lmonitor.Float.{Float}
use lmonitor.Collector.Cpu.{CpuTimes, total, idle_time, difference, calculate_usage}

-- The ticks of an interval that were not idle, and those that were.
abbrev pub busy : CpuTimes → ℕ
busy d = d.user + d.nice + d.system + d.irq + d.softirq + d.steal

abbrev pub waited : CpuTimes → ℕ
waited d = d.idle + d.iowait

-- The counters after an interval with these ticks, in 64 bits.
abbrev pub after : CpuTimes → CpuTimes → CpuTimes
after p d = record {
  user = (p.user + d.user) % 2 ^ 64;
  nice = (p.nice + d.nice) % 2 ^ 64;
  system = (p.system + d.system) % 2 ^ 64;
  idle = (p.idle + d.idle) % 2 ^ 64;
  iowait = (p.iowait + d.iowait) % 2 ^ 64;
  irq = (p.irq + d.irq) % 2 ^ 64;
  softirq = (p.softirq + d.softirq) % 2 ^ 64;
  steal = (p.steal + d.steal) % 2 ^ 64;
}

difference_mod : (a d : ℕ) → d < 2 ^ 64 → difference ((a + d) % 2 ^ 64) (a % 2 ^ 64) ≡ d
difference_mod a d h = omega arith

idle_time-after : (p d : CpuTimes) → idle_time (after p d) ≡ (p.idle + p.iowait + waited d) % 2 ^ 64
unfolding idle_time
idle_time-after p d = omega arith

total-after :
    (p d : CpuTimes)
    → total (after p d)
      ≡ (p.user
          + p.nice
          + p.system
          + p.idle
          + p.iowait
          + p.irq
          + p.softirq
          + p.steal
          + (busy d + waited d))
        % 2 ^ 64
unfolding total
total-after p d = omega arith

total_delta :
    (p d : CpuTimes)
    → busy d + waited d < 2 ^ 64
    → difference (total (after p d)) (total p) ≡ busy d + waited d
unfolding total
total_delta p d h =
    ap (λ t. difference t (total p)) (total-after p d) ∙ difference_mod _ (busy d + waited d) h

idle_delta :
    (p d : CpuTimes)
    → waited d < 2 ^ 64
    → difference (idle_time (after p d)) (idle_time p) ≡ waited d
unfolding idle_time
idle_delta p d h =
    ap (λ t. difference t (idle_time p)) (idle_time-after p d) ∙ difference_mod _ (waited d) h

-- 100.0 * part / whole
abbrev pub share : {D : Type 0} → Float D → ℕ → ℕ → D
share F part whole = F.div (F.mul (F.of_nat 100) (F.of_nat part)) (F.of_nat whole)

busy_part : (b w : ℕ) → b + w < 2 ^ 64 → difference (b + w) w ≡ b
busy_part b w h = omega arith

-- The usage over an interval is the share of its ticks that were not idle, or zero if it has none, if
-- it has less than 2 ^ 64 of them: also when counters, or their sums, wrap around in it.
pub calculate_usage-after :
    {D : Type 0} (F : Float D) (p d : CpuTimes)
    → busy d + waited d < 2 ^ 64
    → calculate_usage F p (after p d)
      ≡ (if busy d + waited d == 0 then F.of_nat 0 else share F (busy d) (busy d + waited d))
unfolding calculate_usage
calculate_usage-after F p d h =
    rw (total_delta p d h, idle_delta p d (omega arith), busy_part (busy d) (waited d) h) refl

forward : (a b : ℕ) → b < a → a < 2 ^ 64 → difference a b ≡ a - b
forward a b h fits = omega arith

backward : (x a b : ℕ) → a < b → x + b < 2 ^ 64 → difference x (difference a b) ≡ x + (b - a)
backward x a b h fits = omega arith

-- When the idle counters go back in an interval, as iowait may, the part that is taken for busy is
-- larger than the whole.
pub calculate_usage_idle_back :
    {D : Type 0} (F : Float D) (p c : CpuTimes)
    → total p < total c
    → idle_time c < idle_time p
    → total c + idle_time p < 2 ^ 64
    → calculate_usage F p c
      ≡ share F (total c - total p + (idle_time p - idle_time c)) (total c - total p)
unfolding calculate_usage
calculate_usage_idle_back F p c t i h =
    rw
      (
        forward (total c) (total p) t (omega arith),
        backward (total c - total p) (idle_time c) (idle_time p) i (omega arith),
      )
      (ground arith)
