-- ===== src/Serializer/Example.antt =====
-- Data of the tests: metrics that can be sent.
use Prim.{tt}
use lmonitor.Base.{ℕ, ◌^◌, ◌<◌, ◌≡◌, refl, true, List, [], ◌∷◌, All, length, arith, ltb}
use lmonitor.Base.Text.{codes}
use lmonitor.Base.Decimal.{to_string, to_string-IsDigit}
use lmonitor.Base.Lines.{has}
use lmonitor.Base.Number.{pos, stoull-to_string}
use lmonitor.Sample.{whole, host_a, metrics_of}
use lmonitor.Model.{ProcessMetric, SystemMetrics}
use lmonitor.Serializer.RoundTrip.Sendable.{PrintsFixed, IsSendable, IsSendableProcess}
use lmonitor.Serializer.RoundTrip.Lines.{to_string-IsText, digits-has}

fits : (d : ℕ) → ltb d (2 ^ 64) ≡ true → d < 2 ^ 64
fits d h = ground arith

-- Whole numbers below 2 ^ 64 print and read as the theorem asks.
pub whole-PrintsFixed : PrintsFixed whole (λ d. d)
whole-PrintsFixed = record {
  reads = λ d h. stoull-to_string d (fits d h);
  stays_finite = λ d h. h;
  is_text = λ d h. to_string-IsText d;
  no_comma = λ d h. digits-has b',' (to_string d) (omega arith) (to_string-IsDigit d);
}

-- A process name with a comma and an equals sign.
abbrev shell : ProcessMetric ℕ
shell = record {
  pid = pos 4242;
  name = codes "sh -c a=1,b";
  cpu_usage_percent = 3;
  memory_usage_percent = 5;
  resident_memory_kb = 2048;
}

abbrev pub sent : SystemMetrics ℕ
sent = record (metrics_of host_a 10 20 30) { top_processes = shell ∷ shell ∷ [] }

shell-IsSendable : IsSendableProcess whole shell
unfolding has
shell-IsSendable = record {
  pid = (4242, refl, omega arith);
  name = (ground arith, (refl, refl));
  cpu = refl;
  memory = refl;
  resident = omega arith;
}

-- The host `a` with these percentages and processes.
pub sample-IsSendable :
    (cpu memory disk : ℕ) (processes : List (ProcessMetric ℕ))
    → ltb cpu (2 ^ 64) ≡ true
    → ltb memory (2 ^ 64) ≡ true
    → ltb disk (2 ^ 64) ≡ true
    → length processes < 2 ^ 64
    → All (IsSendableProcess whole) processes
    → IsSendable whole
        (λ d. d)
        (record (metrics_of host_a cpu memory disk) { top_processes = processes })
unfolding has
sample-IsSendable cpu memory disk processes c m d n h = record {
  hostname = (ground arith, (refl, refl));
  uptime = omega arith;
  cpus = (omega arith, omega arith);
  cpu = c;
  memory_total = omega arith;
  memory_used = omega arith;
  memory_available = omega arith;
  memory = m;
  load1 = refl;
  load5 = refl;
  load15 = refl;
  mount = (ground arith, (refl, refl));
  disk_total = omega arith;
  disk_used = omega arith;
  disk_available = omega arith;
  disk = d;
  network = (ground arith, (refl, refl));
  rx = refl;
  tx = refl;
  interval = refl;
  interval_positive = refl;
  count = n;
  processes = h;
}

pub sent-IsSendable : IsSendable whole (λ d. d) sent
sent-IsSendable =
    sample-IsSendable 10 20 30 (shell ∷ shell ∷ []) refl refl refl (omega arith)
      (shell-IsSendable, (shell-IsSendable, tt))
