-- ===== src/Alert/Manager/Automaton.antt =====
-- `AlertManager::update`, src/alert/AlertManager.cpp, seen from one entry of its table.
use lmonitor.Base.{
  ℕ, ◌-◌, ◌/◌, ◌≡◌, refl, ◌∙◌, inl, inr, Bool, true, false, List, [], ◌∷◌, Option, none, some,
  arith, if◌then◌else◌,
}
use lmonitor.Base.Text.{Bytes, bytes_eq, bytes_eq_iff, bytes_key}
use lmonitor.Base.Map.{Map, lookup, insert, lookup-insert}
use lmonitor.Base.Number.{ℤ}
use lmonitor.Float.{Float}
use lmonitor.Model.{SystemMetrics}
use lmonitor.Alert.Evaluator.{Alert, cpu_metric, memory_metric, disk_metric, evaluate}
use lmonitor.Alert.Manager.Keys.{IsMetric, key_ne}
use lmonitor.Alert.Manager.{
  normal, firing, ManagedAlert, AlertManager, ticks_per_second, lasted, key_of, detected, is_firing,
  raise_found, raise_all, is_current, resolved, resolve_all, raw_alerts, update,
}

module _ {D : Type 0} where
  -- The alert of these metrics under the key.
  unfoldable pub find_key : Bytes → List (Alert D) → Option (Alert D)
  find_key k [] = none
  find_key k (a ∷ rest) = if bytes_eq (key_of a) k then some a else find_key k rest

  -- One step of an entry: `o` is the entry before, and the other argument is the alert that the
  -- metrics raise under its key. A new entry is pending; one that is raised again fires once the
  -- time since it was first detected is long enough; one that is no longer raised stops firing.
  abbrev pub next : ℕ → ℤ → Option (Alert D) → Option (ManagedAlert D) → Option (ManagedAlert D)
  next now fire (some a) none = some (detected now a)
  next now fire (some a) (some m) = some (record m {
    current_value = a.current_value;
    last_update = now;
    state = if lasted ((now - m.first_detected) / ticks_per_second) fire then firing else m.state;
  })
  next now fire none none = none
  next now fire none (some m) =
      some (record m { state = if is_firing m.state then normal else m.state })

  abbrev raised : ℕ → ℤ → Option (Alert D) → Option (ManagedAlert D) → Option (ManagedAlert D)
  raised now fire none o = o
  raised now fire (some a) o = some (raise_found now fire a o).0

  abbrev HasDistinctKeys : List (Alert D) → Type 0
  HasDistinctKeys [] = Unit
  HasDistinctKeys (a ∷ rest) = (find_key (key_of a) rest ≡ none) × HasDistinctKeys rest

  lookup-raise_all :
      (now : ℕ) (fire : ℤ) (raw : List (Alert D)) (m : Map Bytes (ManagedAlert D)) (k : Bytes)
      → HasDistinctKeys raw
      → lookup k (raise_all now fire raw m).0 ≡ raised now fire (find_key k raw) (lookup k m)
  unfolding raise_all find_key
  lookup-raise_all now fire [] m k h = refl
  lookup-raise_all now fire (a ∷ rest) m k (fresh, h) =
      let entry = (raise_found now fire a (lookup (key_of a) m)).0 in
      lookup-raise_all now fire rest (insert (key_of a) entry m) k h
      ∙ ground (arith, lookup-insert (key_of a) k entry m, bytes_eq_iff (key_of a) k, fresh)

  abbrev resolve_entry : Bool → Option (ManagedAlert D) → Option (ManagedAlert D)
  resolve_entry current none = none
  resolve_entry current (some m) = some (if current then m else resolved m)

  lookup-resolve_all :
      (raw : List (Alert D)) (m : Map Bytes (ManagedAlert D)) (k : Bytes)
      → lookup k (resolve_all raw m) ≡ resolve_entry (is_current k raw) (lookup k m)
  unfolding resolve_all lookup
  lookup-resolve_all raw [] k = refl
  lookup-resolve_all raw ((j, e) ∷ m) k =
      ground (arith, bytes_eq_iff j k, lookup-resolve_all raw m k)

  abbrev is_there : Option (Alert D) → Bool
  is_there none = false
  is_there (some a) = true

  is_current-find_key :
      (k : Bytes) (raw : List (Alert D)) → is_current k raw ≡ is_there (find_key k raw)
  unfolding is_current find_key
  is_current-find_key k [] = refl
  is_current-find_key k (a ∷ rest) = ground (arith, is_current-find_key k rest)

  evaluate-HasDistinctKeys :
      (F : Float D) (x : SystemMetrics D) (c t : D) → HasDistinctKeys (evaluate F x c t)
  unfolding evaluate find_key
  evaluate-HasDistinctKeys F x c t =
      let h = x.hostname in
      let is_cpu : IsMetric cpu_metric = inl refl in
      let is_memory : IsMetric memory_metric = inr (inl refl) in
      let is_disk : IsMetric disk_metric = inr (inr refl) in
      ground (
        arith,
        key_ne h memory_metric cpu_metric is_memory is_cpu (cc),
        key_ne h disk_metric cpu_metric is_disk is_cpu (cc),
        key_ne h disk_metric memory_metric is_disk is_memory (cc),
      )

  raised_step :
      (now : ℕ) (fire : ℤ) (f : Option (Alert D)) (o : Option (ManagedAlert D))
      → resolve_entry (is_there f) (raised now fire f o) ≡ next now fire f o
  raised_step now fire none none = refl
  raised_step now fire none (some m) = ground arith
  raised_step now fire (some a) none = refl
  raised_step now fire (some a) (some m) = ground arith

  -- `update` moves every entry of the table by one step of the machine, and by the alert that the
  -- metrics raise under its key alone.
  pub lookup-update :
      (F : Float D) (now : ℕ) (x : SystemMetrics D) (s : AlertManager D) (k : Bytes)
      → lookup k (update F now x s).0.alerts
        ≡ next now s.fire_duration (find_key k (raw_alerts F x s)) (lookup k s.alerts)
  unfolding update
  lookup-update F now x s k =
      let raw = raw_alerts F x s in
      let distinct = evaluate-HasDistinctKeys F x s.cpu_threshold s.memory_threshold in
      lookup-resolve_all raw (raise_all now s.fire_duration raw s.alerts).0 k
      ∙ ground (
        arith,
        lookup-raise_all now s.fire_duration raw s.alerts k distinct,
        is_current-find_key k raw,
        raised_step now s.fire_duration (find_key k raw) (lookup k s.alerts),
      )
