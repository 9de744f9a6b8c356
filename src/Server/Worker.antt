-- ===== src/Server/Worker.antt =====
-- A worker's task in src/server/TcpServer.cpp, alone and beside other threads.
use lmonitor.Base.{
  ℕ, ◌≡◌, ◌≢◌, refl, List, [], ◌∷◌, ◌++◌, ok, err, arith, is_empty_no, append-nil, Result-cases,
  ◌⊎◌, inl, inr,
}
use lmonitor.Base.Text.{Bytes, bytes_key}
use lmonitor.Float.{Float}
use lmonitor.Model.{SystemMetrics}
use lmonitor.Serializer.Numbers.{ParseError}
use lmonitor.Serializer.Reader.{deserialize}
use lmonitor.Serializer.Accepted.Valid.{deserialize-IsValid}
use lmonitor.Store.HistoryStore as HistoryStore
use lmonitor.Store.HistoryStore.{MetricsHistoryStore}
use lmonitor.Store.MetricsStore as MetricsStore
use lmonitor.Store.MetricsStore.{MetricsStore, StoredMetrics, online}
use lmonitor.Store.MetricsStore.Latest as Latest
use lmonitor.Store.StateTracker as StateTracker
use lmonitor.Alert.Manager as AlertManager
use lmonitor.Server.{
  Server, Log, invalid_metrics, parsing, returned, Clock, firing_log, stored_of, initialized,
  advance, run_task,
}

-- The clocks that a task reads, one for each of its six steps.
pub record Clocks : Type 0 where
  pub parse : Clock
  pub add : Clock
  pub evaluate : Clock
  pub store : Clock
  pub track : Clock
  pub queue : Clock

abbrev pub clock_list : Clocks → List Clock
clock_list c = c.parse ∷ c.add ∷ c.evaluate ∷ c.store ∷ c.track ∷ c.queue ∷ []

module _ {D : Type 0} (F : Float D) where
  -- The server behind one task with valid metrics.
  abbrev pub after_metrics : Clocks → Bytes → SystemMetrics D → Server D → Server D
  after_metrics c client m s = record {
    metrics_store = Latest.step s.metrics_store (c.store.system, m);
    history_store =
        HistoryStore.add c.add.system m.hostname m.cpu_usage_percent m.memory_usage_percent
          s.history_store;
    alert_manager = (AlertManager.update F c.evaluate.steady m s.alert_manager).0;
    state_tracker = (StateTracker.update m.hostname online s.state_tracker).0;
    pending_functors = s.pending_functors ++ stored_of client m ∷ [];
  }

  abbrev pub metrics_log : Clocks → SystemMetrics D → Server D → List Log
  metrics_log c m s =
      firing_log (AlertManager.update F c.evaluate.steady m s.alert_manager).1
      ++ initialized m.hostname (StateTracker.update m.hostname online s.state_tracker).1

  pub update_stores :
      (now : ℕ) (m : SystemMetrics D) (s : MetricsStore D)
      → m.hostname ≢ []
      → MetricsStore.update now m s ≡ ok (Latest.step s (now, m))
  unfolding MetricsStore.update
  update_stores now m s ne = ground (arith, is_empty_no m.hostname ne)

  -- A payload that is refused changes nothing, and is logged; with one that is accepted no step
  -- fails, and the task calls each store once with the metrics.
  pub run_task-parsing :
      (c : Clocks) (client message : Bytes) (s : Server D)
      → ((e : ParseError) × (deserialize F message ≡ err e)
          × (run_task F (clock_list c) (parsing client message) s
              ≡ (returned, s, invalid_metrics client e ∷ [])))
        ⊎ ((m : SystemMetrics D) × (deserialize F message ≡ ok m)
            × (run_task F (clock_list c) (parsing client message) s
                ≡ (returned, after_metrics c client m s, metrics_log c m s)))
  unfolding run_task advance
  run_task-parsing c client message s = elim (Result-cases (deserialize F message)) [
    | inl (e, h) ↦ inl (e, h, rw h refl)
    | inr (m, h) ↦
        let stores =
          update_stores c.store.system m s.metrics_store
            (deserialize-IsValid F message m h).hostname in
        inr (m, h, rw h (ground (arith, stores, append-nil (metrics_log c m s))))
  ]
