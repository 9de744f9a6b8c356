-- ===== src/Alert/Evaluator.antt =====
-- include/alert/AlertEvaluator.h and src/alert/AlertEvaluator.cpp.
pub mod Thresholds
use lmonitor.Base.{ℕ, Bool, List, [], ◌∷◌, ◌++◌, if◌then◌else◌}
use lmonitor.Base.Text.{Bytes, codes}
use lmonitor.Float.{Float}
use lmonitor.Model.{SystemMetrics}

pub data AlertLevel : Type 0 where
  warning critical : AlertLevel

pub record Alert (D : Type 0) : Type 0 where
  pub hostname : Bytes
  pub metric : Bytes
  pub level : AlertLevel
  pub current_value : D
  pub threshold : D
  pub message : Bytes

abbrev pub cpu_metric : Bytes
cpu_metric = codes "cpu"

abbrev pub memory_metric : Bytes
memory_metric = codes "memory"

abbrev pub disk_metric : Bytes
disk_metric = codes "disk"

unfoldable pub level_to_string : AlertLevel → Bytes
level_to_string AlertLevel.warning = codes "WARNING"
level_to_string AlertLevel.critical = codes "CRITICAL"

module _ {D : Type 0} (F : Float D) where
  -- `diskCriticalThreshold_`, which the constructor sets
  abbrev pub disk_critical_threshold : D
  disk_critical_threshold = F.of_nat 90

  abbrev pub cpu_alert : SystemMetrics D → D → Alert D
  cpu_alert m threshold = record {
    hostname = m.hostname;
    metric = cpu_metric;
    level = AlertLevel.warning;
    current_value = m.cpu_usage_percent;
    threshold = threshold;
    message = codes "CPU usage exceeded warning threshold";
  }

  abbrev pub memory_alert : SystemMetrics D → D → Alert D
  memory_alert m threshold = record {
    hostname = m.hostname;
    metric = memory_metric;
    level = AlertLevel.warning;
    current_value = m.memory_usage_percent;
    threshold = threshold;
    message = codes "Memory usage exceeded warning threshold";
  }

  abbrev pub disk_alert : SystemMetrics D → Alert D
  disk_alert m = record {
    hostname = m.hostname;
    metric = disk_metric;
    level = AlertLevel.critical;
    current_value = m.disk_usage_percent;
    threshold = disk_critical_threshold;
    message = codes "Disk usage exceeded critical threshold";
  }

  unfoldable pub evaluate : SystemMetrics D → D → D → List (Alert D)
  evaluate m cpu_threshold memory_threshold =
      (if F.geb m.cpu_usage_percent cpu_threshold then cpu_alert m cpu_threshold ∷ [] else [])
      ++ ((if F.geb m.memory_usage_percent memory_threshold
            then memory_alert m memory_threshold ∷ []
            else [])
          ++ (if F.geb m.disk_usage_percent disk_critical_threshold then disk_alert m ∷ [] else []))
