-- ===== src/Server.antt =====
-- src/server/TcpServer.cpp: the task that the message callback submits to the thread pool, and the
-- callback of the status timer. A worker runs its task beside the other workers, the timer and the
-- HTTP thread; each store has a mutex of its own, so a step of the task is one call of one store.
pub mod Worker
pub mod Interleaving
pub mod Callback
pub mod Timer
pub mod Pipeline
pub mod Agents
pub mod Startup
pub mod Connections
mod Tests
use lmonitor.Base.{
  ℕ, zero, suc, ◌+◌, Bool, true, false, not, List, [], ◌∷◌, ◌++◌, Option, none, some, Result, ok,
  err, if◌then◌else◌, length, map,
}
use lmonitor.Base.Text.{Bytes, codes}
use lmonitor.Base.Number.{pos}
use lmonitor.Float.{Float}
use lmonitor.Model.{SystemMetrics}
use lmonitor.TcpConnection.{Effect, delivered, closed, logged}
use lmonitor.Serializer.Numbers.{ParseError}
use lmonitor.Serializer.Reader.{deserialize}
use lmonitor.Store.HistoryStore as HistoryStore
use lmonitor.Store.HistoryStore.{MetricsHistoryStore}
use lmonitor.Store.MetricsStore as MetricsStore
use lmonitor.Store.MetricsStore.{MetricsStore, StoredMetrics, StoreError, HostStatus, online}
use lmonitor.Store.StateTracker as StateTracker
use lmonitor.Store.StateTracker.{StateTracker, StateChange}
use lmonitor.Alert.Manager as AlertManager
use lmonitor.Alert.Manager.{AlertManager, ManagedAlert, is_firing}

-- The captures of the functor that logs "Metrics stored".
pub record Stored (D : Type 0) : Type 0 where
  pub client_name : Bytes
  pub hostname : Bytes
  pub cpu : D
  pub memory : D
  pub load1 : D
  pub process_count : ℕ

-- The objects that the tasks share, with the functors that wait in the event loop.
pub record Server (D : Type 0) : Type 0 where
  pub metrics_store : MetricsStore D
  pub history_store : MetricsHistoryStore D
  pub alert_manager : AlertManager D
  pub state_tracker : StateTracker
  pub pending_functors : List (Stored D)

-- Calls of the logger.
pub data Log : Type 0 where
  invalid_metrics : Bytes → ParseError → Log
  alert_firing : Bytes → Bytes → Log
  store_failed : StoreError → Log
  host_initialized : Bytes → HostStatus → Log
  status_changed : Bytes → HostStatus → HostStatus → Log
  queue_full : Bytes → Log

-- Where a task is: before `deserialize`, before each call of a store and `queueInLoop`, or returned.
pub data Task (D : Type 0) : Type 0 where
  parsing : Bytes → Bytes → Task D
  adding_history evaluating storing tracking queueing : Bytes → SystemMetrics D → Task D
  returned : Task D

-- The clocks as a step reads them.
pub record Clock : Type 0 where
  pub system : ℕ
  pub steady : ℕ

-- `if (change.changed) info(…)`
abbrev pub initialized : Bytes → StateChange → List Log
initialized hostname change =
    if change.changed then host_initialized hostname change.new_status ∷ [] else []

module _ {D : Type 0} where
  -- `for (alert : alerts) if (alert.state == Firing) warning(…)`
  unfoldable pub firing_log : List (ManagedAlert D) → List Log
  firing_log [] = []
  firing_log (a ∷ alerts) =
      let later = firing_log alerts in
      if is_firing a.state then alert_firing a.hostname a.metric ∷ later else later

  abbrev pub stored_of : Bytes → SystemMetrics D → Stored D
  stored_of client m = record {
    client_name = client;
    hostname = m.hostname;
    cpu = m.cpu_usage_percent;
    memory = m.memory_usage_percent;
    load1 = m.load1;
    process_count = length m.top_processes;
  }

  abbrev pub parsed : Bytes → Result ParseError (SystemMetrics D) → Task D × List Log
  parsed client (ok m) = (adding_history client m, [])
  parsed client (err e) = (returned, invalid_metrics client e ∷ [])

  abbrev pub put :
      Bytes
      → SystemMetrics D
      → Server D
      → Result StoreError (MetricsStore D)
      → Task D × Server D × List Log
  put client m s (ok store) = (tracking client m, record s { metrics_store = store }, [])
  put client m s (err e) = (returned, s, store_failed e ∷ [])

  -- One step of a task.
  unfoldable pub advance : Float D → Clock → Task D → Server D → Task D × Server D × List Log
  unfolding firing_log
  advance F now (parsing client message) s =
      let (t, logs) = parsed client (deserialize F message) in (t, s, logs)
  advance F now (adding_history client m) s =
      let history =
        HistoryStore.add now.system m.hostname m.cpu_usage_percent m.memory_usage_percent
          s.history_store in
      (evaluating client m, record s { history_store = history }, [])
  advance F now (evaluating client m) s =
      let (manager, alerts) = AlertManager.update F now.steady m s.alert_manager in
      (storing client m, record s { alert_manager = manager }, firing_log alerts)
  advance F now (storing client m) s =
      put client m s (MetricsStore.update now.system m s.metrics_store)
  advance F now (tracking client m) s =
      let (tracker, change) = StateTracker.update m.hostname online s.state_tracker in
      (queueing client m, record s { state_tracker = tracker }, initialized m.hostname change)
  advance F now (queueing client m) s =
      (returned, record s { pending_functors = s.pending_functors ++ stored_of client m ∷ [] }, [])
  advance F now returned s = (returned, s, [])

  -- A task with no other thread beside it, one clock for each step.
  unfoldable pub run_task : Float D → List Clock → Task D → Server D → Task D × Server D × List Log
  run_task F [] t s = (t, s, [])
  run_task F (now ∷ clocks) t s =
      let (t₁, s₁, logs) = advance F now t s in
      let (t₂, s₂, later) = run_task F clocks t₁ s₁ in (t₂, s₂, logs ++ later)

  -- The message callback: the task that it submits.
  abbrev pub task_of : Effect → List (Task D)
  task_of (delivered name message) = parsing name message ∷ []
  task_of (closed fd) = []
  task_of (logged level text) = []

  unfoldable pub tasks_of : List Effect → List (Task D)
  tasks_of [] = []
  tasks_of (e ∷ es) = task_of e ++ tasks_of es

-- A state change that the timer logs.
abbrev pub status_log : Bytes → StateChange → List Log
status_log hostname change =
    if not change.changed
    then []
    else status_changed hostname change.old_status change.new_status ∷ []

-- The status timer's callback between its steps: before `getAll`, or at its loop, with the hosts of
-- the copy that are left. Each step is one call of an object with a lock of its own.
pub data TimerTask (D : Type 0) : Type 0 where
  getting : TimerTask D
  checking : List (StoredMetrics D) → TimerTask D

-- One round of the loop, which reads the clock and then updates the tracker.
unfoldable pub check_host : {D : Type 0} → ℕ → StoredMetrics D → Server D → Server D × List Log
check_host now host s =
    let status = MetricsStore.get_status now host in
    let (tracker, change) = StateTracker.update host.metrics.hostname status s.state_tracker in
    (record s { state_tracker = tracker }, status_log host.metrics.hostname change)

abbrev left_to :
    {D : Type 0} → List (StoredMetrics D) → Server D × List Log → TimerTask D × Server D × List Log
left_to hosts (s, logs) = (checking hosts, s, logs)

-- One step of the callback; other threads may run before it and behind it.
unfoldable pub tick : {D : Type 0} → ℕ → TimerTask D → Server D → TimerTask D × Server D × List Log
unfolding check_host
tick now getting s = (checking (MetricsStore.get_all s.metrics_store), s, [])
tick now (checking []) s = (checking [], s, [])
tick now (checking (host ∷ hosts)) s = left_to hosts (check_host now host s)

-- The loop with no other thread beside it; `clock i` is the clock's i-th answer.
unfoldable pub check_hosts :
    {D : Type 0} → (ℕ → ℕ) → ℕ → List (StoredMetrics D) → Server D → Server D × List Log
unfolding check_host
check_hosts clock i [] s = (s, [])
check_hosts clock i (host ∷ hosts) s =
    let (s₁, logs) = check_host (clock i) host s in
    let (s₂, later) = check_hosts clock (suc i) hosts s₁ in (s₂, logs ++ later)

-- The callback with no other thread beside it.
unfoldable pub on_timer : {D : Type 0} → (ℕ → ℕ) → Server D → Server D × List Log
unfolding check_hosts
on_timer clock s = check_hosts clock 0 (MetricsStore.get_all s.metrics_store) s
