-- ===== src/Alert/Evaluator/Thresholds.antt =====
-- `AlertEvaluator::evaluate` of src/alert/AlertEvaluator.cpp, metric by metric.
use lmonitor.Base.{◌+◌, ◌≡◌, List, [], ◌∷◌, Option, none, some, arith, length, if◌then◌else◌}
use lmonitor.Base.Text.{Bytes, bytes_eq}
use lmonitor.Float.{Float}
use lmonitor.Model.{SystemMetrics}
use lmonitor.Alert.Evaluator.{
  Alert, cpu_metric, memory_metric, disk_metric, cpu_alert, memory_alert, disk_alert, evaluate,
}

module _ {D : Type 0} where
  -- The first alert for the metric.
  unfoldable pub find_metric : Bytes → List (Alert D) → Option (Alert D)
  find_metric metric [] = none
  find_metric metric (a ∷ rest) =
      if bytes_eq a.metric metric then some a else find_metric metric rest

  -- An alert for a metric is raised exactly if its value has reached the threshold, which is 90 for
  -- the disk, and there are no other alerts.
  pub evaluate_lem :
      (F : Float D) (m : SystemMetrics D) (c t : D)
      → let alerts = evaluate F m c t in
        (find_metric cpu_metric alerts
          ≡ (if F.geb m.cpu_usage_percent c then some (cpu_alert F m c) else none))
        × (find_metric memory_metric alerts
            ≡ (if F.geb m.memory_usage_percent t then some (memory_alert F m t) else none))
        × (find_metric disk_metric alerts
            ≡ (if F.geb m.disk_usage_percent (F.of_nat 90) then some (disk_alert F m) else none))
        × (length alerts
            ≡ (if F.geb m.cpu_usage_percent c then 1 else 0)
              + (if F.geb m.memory_usage_percent t then 1 else 0)
              + (if F.geb m.disk_usage_percent (F.of_nat 90) then 1 else 0))
  unfolding evaluate find_metric bytes_eq
  evaluate_lem F m c t = ground arith
