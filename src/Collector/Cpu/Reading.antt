-- ===== src/Collector/Cpu/Reading.antt =====
-- `CpuCollector::readCpuTimes`, src/collector/CpuCollector.cpp, on what the kernel writes.
use lmonitor.Base.{ℕ, ◌^◌, ◌<◌, ◌≡◌, refl, ap, false, ◌∷◌, ◌++◌, some, ok, arith}
use lmonitor.Base.Text.{Bytes, codes, bytes_eq}
use lmonitor.Base.Decimal.{to_string, to_string-IsDigit}
use lmonitor.Base.Lines.{has, has-append, lines-line}
use lmonitor.Base.Number.{EndsNumber, skip_spaces, stoull, stoull-space}
use lmonitor.Serializer.RoundTrip.Lines.{digits-has}
use lmonitor.Base.Words.{take_word}
use lmonitor.Collector.Cpu.{CpuTimes, next_counter, read_counters, read_line, read_cpu_times}

-- `counter` behind a space, and what is behind it
abbrev spaced : ℕ → Bytes → Bytes
spaced n rest = b' ' ∷ (to_string n ++ rest)

-- The eight counters as the kernel writes them, and the rest of the line.
abbrev pub counters_text : CpuTimes → Bytes → Bytes
counters_text t rest = spaced t.user (
    spaced t.nice (
      spaced t.system
        (spaced t.idle (spaced t.iowait (spaced t.irq (spaced t.softirq (spaced t.steal rest)))))))

-- Each counter is within its type.
abbrev pub IsCounted : CpuTimes → Type 0
IsCounted t =
    (t.user < 2 ^ 64)
    × (t.nice < 2 ^ 64)
    × (t.system < 2 ^ 64)
    × (t.idle < 2 ^ 64)
    × (t.iowait < 2 ^ 64)
    × (t.irq < 2 ^ 64)
    × (t.softirq < 2 ^ 64)
    × (t.steal < 2 ^ 64)

next_counter-spaced :
    (n : ℕ) (rest : Bytes)
    → n < 2 ^ 64
    → EndsNumber rest
    → next_counter (some (spaced n rest)) ≡ (n, some rest)
next_counter-spaced n rest h e = rw (stoull-space n rest h e) refl

read_counters-text :
    (t : CpuTimes) (rest : Bytes)
    → IsCounted t
    → EndsNumber rest
    → read_counters (some (counters_text t rest)) ≡ t
read_counters-text t rest k e =
    let r₇ = spaced t.steal rest in
    let r₆ = spaced t.softirq r₇ in
    let r₅ = spaced t.irq r₆ in
    let r₄ = spaced t.iowait r₅ in
    let r₃ = spaced t.idle r₄ in
    let r₂ = spaced t.system r₃ in
    let r₁ = spaced t.nice r₂ in
    rw
      (
        stoull-space t.user r₁ k.0 refl,
        stoull-space t.nice r₂ k.1 refl,
        stoull-space t.system r₃ k.2 refl,
        stoull-space t.idle r₄ k.3 refl,
        stoull-space t.iowait r₅ k.4 refl,
        stoull-space t.irq r₆ k.5 refl,
        stoull-space t.softirq r₇ k.6 refl,
        stoull-space t.steal rest k.7 e,
      )
      refl

counters_text-line :
    (t : CpuTimes) (rest : Bytes)
    → IsCounted t
    → EndsNumber rest
    → read_line (codes "cpu " ++ counters_text t rest) ≡ ok t
unfolding take_word skip_spaces bytes_eq stoull
counters_text-line t rest k e = ap ok (read_counters-text t rest k e)

spaced-has : (n : ℕ) (rest : Bytes) → has b'\n' rest ≡ false → has b'\n' (spaced n rest) ≡ false
unfolding has
spaced-has n rest h = ground (
  arith,
  has-append b'\n' (to_string n) rest,
  digits-has b'\n' (to_string n) (omega arith) (to_string-IsDigit n),
)

counters_text-has :
    (t : CpuTimes) (rest : Bytes)
    → has b'\n' rest ≡ false
    → has b'\n' (codes "cpu " ++ counters_text t rest) ≡ false
unfolding has
counters_text-has t rest h = spaced-has t.user _ (
    spaced-has t.nice _ (
      spaced-has t.system _ (
        spaced-has t.idle _ (
          spaced-has t.iowait _
            (spaced-has t.irq _ (spaced-has t.softirq _ (spaced-has t.steal rest h)))))))

-- The first line of /proc/stat, as the kernel writes it, is read as its counters, whatever columns
-- and lines are behind them.
pub read_cpu_times-text :
    (t : CpuTimes) (rest more : Bytes)
    → IsCounted t
    → EndsNumber rest
    → has b'\n' rest ≡ false
    → read_cpu_times (some ((codes "cpu " ++ counters_text t rest) ++ b'\n' ∷ more)) ≡ ok t
unfolding read_cpu_times
read_cpu_times-text t rest more k e one =
    rw
      (
        lines-line (codes "cpu " ++ counters_text t rest) more (counters_text-has t rest one),
        read_cpu_times,
      )
      (counters_text-line t rest k e)
