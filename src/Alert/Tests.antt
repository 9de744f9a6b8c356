-- ===== src/Alert/Tests.antt =====
-- The alert manager at work, and the theorems about it at these inputs.
use lmonitor.Base.{arith, ℕ, ◌≡◌, inl, refl, [], ◌∷◌, some}
use lmonitor.Base.Text.{Bytes, codes, bytes_eq, bytes_key}
use lmonitor.Base.Map.{insert, lookup}
use lmonitor.Base.Number.{pos}
use lmonitor.Sample.{whole, host_a, host_b, metrics_of}
use lmonitor.Model.{SystemMetrics}
use lmonitor.Alert.Evaluator.{cpu_metric, cpu_alert, evaluate}
use lmonitor.Alert.Manager.{
  AlertManager, ManagedAlert, normal, firing, detected, make_key, update, raise_all, resolve_all,
  is_current, raw_alerts,
}
use lmonitor.Alert.Manager.Automaton.{find_key, next, lookup-update}
use lmonitor.Alert.Manager.Reports.{other_host_resolved}

abbrev hot : SystemMetrics ℕ
hot = metrics_of host_a 95 10 10

abbrev quiet : SystemMetrics ℕ
quiet = metrics_of host_a 10 10 10

abbrev key_a : Bytes
key_a = codes "a_cpu"

abbrev waiting_entry : ManagedAlert ℕ
waiting_entry = detected 1_000_000_000 (cpu_alert whole hot 80)

abbrev firing_entry : ManagedAlert ℕ
firing_entry = record waiting_entry { state = firing }

abbrev with_entry : ManagedAlert ℕ → AlertManager ℕ
with_entry e = record {
  alerts = (key_a, e) ∷ [];
  fire_duration = pos 5;
  cpu_threshold = 80;
  memory_threshold = 90;
}

-- Six seconds later the alert fires, and is reported once.
fires_after_duration :
    (update whole 7_000_000_000 hot (with_entry waiting_entry)).1
    ≡ record firing_entry { last_update = 7_000_000_000 } ∷ []
unfolding update evaluate make_key raise_all resolve_all is_current lookup insert bytes_eq
fires_after_duration = refl

lookup-update_example :
    lookup key_a (update whole 7_000_000_000 hot (with_entry waiting_entry)).0.alerts
    ≡ next 7_000_000_000
        (pos 5)
        (find_key key_a (raw_alerts whole hot (with_entry waiting_entry)))
        (lookup key_a (with_entry waiting_entry).alerts)
lookup-update_example = lookup-update whole 7_000_000_000 hot (with_entry waiting_entry) key_a

-- Host b is well, and host a's alert is resolved.
other_host_resolved_example :
    lookup
      (make_key host_a cpu_metric)
      (update whole 7_000_000_000 (metrics_of host_b 10 10 10) (with_entry firing_entry)).0.alerts
    ≡ some (record firing_entry { state = normal })
unfolding make_key lookup bytes_eq
other_host_resolved_example =
    other_host_resolved whole 7_000_000_000 (metrics_of host_b 10 10 10) (with_entry firing_entry)
      host_a cpu_metric firing_entry (inl refl) (ground arith) refl refl
