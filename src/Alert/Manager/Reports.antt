-- ===== src/Alert/Manager/Reports.antt =====
-- What `AlertManager::update`, src/alert/AlertManager.cpp, returns, and what becomes of alerts that
-- the metrics no longer raise.
use lmonitor.Base.{
  ℕ, ◌-◌, ◌/◌, ◌≡◌, ◌≢◌, refl, ◌∙◌, inl, inr, true, List, [], ◌∷◌, Option, none, some, arith, All,
  All-append,
}
use lmonitor.Base.Text.{Bytes, bytes_key}
use lmonitor.Base.Map.{Map, lookup, insert}
use lmonitor.Base.Number.{ℤ}
use lmonitor.Float.{Float}
use lmonitor.Model.{SystemMetrics}
use lmonitor.Alert.Evaluator.{Alert, cpu_metric, memory_metric, disk_metric, evaluate}
use lmonitor.Alert.Manager.Keys.{IsMetric, key_ne_host}
use lmonitor.Alert.Manager.Automaton.{find_key, lookup-update}
use lmonitor.Alert.Manager.{
  normal, pending, firing, ManagedAlert, AlertManager, ticks_per_second, make_key, lasted, key_of,
  raise_found, raise_all, raw_alerts, update,
}

module _ {D : Type 0} where
  -- A report of an alert that fires now, and was first detected at least the fire duration ago.
  abbrev pub IsReport : ℕ → ℤ → ManagedAlert D → Type 0
  IsReport now fire r =
      (r.state ≡ firing)
      × (r.last_update ≡ now)
      × (lasted ((now - r.first_detected) / ticks_per_second) fire ≡ true)

  raise_found-IsReport :
      (now : ℕ) (fire : ℤ) (a : Alert D) (o : Option (ManagedAlert D))
      → All (IsReport now fire) (raise_found now fire a o).1
  raise_found-IsReport now fire a none = tt
  raise_found-IsReport now fire a (some m) = ground arith

  raise_all-IsReport :
      (now : ℕ) (fire : ℤ) (raw : List (Alert D)) (m : Map Bytes (ManagedAlert D))
      → All (IsReport now fire) (raise_all now fire raw m).1
  unfolding raise_all
  raise_all-IsReport now fire [] m = tt
  raise_all-IsReport now fire (a ∷ rest) m =
      let found = raise_found now fire a (lookup (key_of a) m) in
      All-append (IsReport now fire) found.1 _
        (raise_found-IsReport now fire a (lookup (key_of a) m))
        (raise_all-IsReport now fire rest (insert (key_of a) found.0 m))

  -- Every alert that `update` returns is firing, was updated now, and was first detected at least
  -- the fire duration ago.
  pub update-IsReport :
      (F : Float D) (now : ℕ) (x : SystemMetrics D) (s : AlertManager D)
      → All (IsReport now s.fire_duration) (update F now x s).1
  unfolding update
  update-IsReport F now x s = raise_all-IsReport now s.fire_duration (raw_alerts F x s) s.alerts

  -- Metrics of one host raise nothing under another host's keys.
  no_alert_for_other :
      (F : Float D) (x : SystemMetrics D) (c t : D) (h m : Bytes)
      → IsMetric m
      → h ≢ x.hostname
      → find_key (make_key h m) (evaluate F x c t) ≡ none
  unfolding find_key evaluate
  no_alert_for_other F x c t h m p ne = ground (
    arith,
    key_ne_host h x.hostname m cpu_metric p (inl refl) ne,
    key_ne_host h x.hostname m memory_metric p (inr (inl refl)) ne,
    key_ne_host h x.hostname m disk_metric p (inr (inr refl)) ne,
  )

  -- The metrics of any host resolve the firing alerts of every other host: the second loop goes
  -- through the whole table, and looks only for the keys that this call has raised.
  pub other_host_resolved :
      (F : Float D) (now : ℕ) (x : SystemMetrics D) (s : AlertManager D) (h m : Bytes)
      (e : ManagedAlert D)
      → IsMetric m
      → h ≢ x.hostname
      → lookup (make_key h m) s.alerts ≡ some e
      → e.state ≡ firing
      → lookup (make_key h m) (update F now x s).0.alerts ≡ some (record e { state = normal })
  other_host_resolved F now x s h m e p ne there fires =
      lookup-update F now x s (make_key h m)
      ∙ ground (arith, no_alert_for_other F x s.cpu_threshold s.memory_threshold h m p ne, there)

  -- An alert that is pending stays pending when its metric falls below the threshold, and keeps the
  -- time of its first detection: nothing ever resolves it.
  pub pending_stays :
      (F : Float D) (now : ℕ) (x : SystemMetrics D) (s : AlertManager D) (k : Bytes)
      (e : ManagedAlert D)
      → find_key k (raw_alerts F x s) ≡ none
      → lookup k s.alerts ≡ some e
      → e.state ≡ pending
      → lookup k (update F now x s).0.alerts ≡ some e
  pending_stays F now x s k e quiet there waits =
      lookup-update F now x s k ∙ ground (arith, quiet, there)

  -- An entry that is there and does not fire, resolved or pending, fires at once when its metric
  -- reaches the threshold again, if it was first detected long enough ago: the time below the
  -- threshold in between does not count.
  pub refires_at_once :
      (F : Float D) (now : ℕ) (x : SystemMetrics D) (s : AlertManager D) (k : Bytes) (a : Alert D)
      (e : ManagedAlert D)
      → find_key k (raw_alerts F x s) ≡ some a
      → lookup k s.alerts ≡ some e
      → lasted ((now - e.first_detected) / ticks_per_second) s.fire_duration ≡ true
      → lookup k (update F now x s).0.alerts
        ≡ some (record e { state = firing; current_value = a.current_value; last_update = now })
  refires_at_once F now x s k a e high there long =
      lookup-update F now x s k ∙ ground (arith, high, there)
