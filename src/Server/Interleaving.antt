-- ===== src/Server/Interleaving.antt =====
-- Several workers' tasks of src/server/TcpServer.cpp at once, step by step.
use Prim.{tt}
use lmonitor.Base.{
  map, ℕ, zero, suc, ◌≡◌, ◌≢◌, refl, Bool, true, false, List, [], ◌∷◌, ◌++◌, some, ok, arith, All,
  All-append, Result-cases, inl, inr,
}
use lmonitor.Base.Text.{Bytes, bytes_key}
use lmonitor.Float.{Float}
use lmonitor.Model.{SystemMetrics}
use lmonitor.Serializer.Reader.{deserialize}
use lmonitor.Serializer.Accepted.Valid.{deserialize-IsValid}
use lmonitor.Store.MetricsStore.{get_latest, online}
use lmonitor.Store.MetricsStore.Latest as Latest
use lmonitor.Store.StateTracker as StateTracker
use lmonitor.Alert.Manager as AlertManager
use lmonitor.Alert.Manager.{ManagedAlert, is_firing}
use lmonitor.Server.{
  Server, Log, invalid_metrics, alert_firing, store_failed, host_initialized, status_changed,
  queue_full, Task, parsing, adding_history, evaluating, storing, tracking, queueing, returned,
  Clock, firing_log, advance, initialized,
}
use lmonitor.Server.Worker.{Clocks, update_stores}

-- The tasks that run, the objects that they share, and what was logged.
pub record System (D : Type 0) : Type 0 where
  pub tasks : List (Task D)
  pub server : Server D
  pub logs : List Log

module _ {D : Type 0} (F : Float D) where
  abbrev advance_in :
      Task D × Server D × List Log → List (Task D) → List (Task D) × Server D × List Log
  advance_in (t, s, logs) ts = (t ∷ ts, s, logs)

  abbrev behind : Task D → List (Task D) × Server D × List Log → List (Task D) × Server D × List Log
  behind t (ts, s, logs) = (t ∷ ts, s, logs)

  -- One step of the task at an index.
  unfoldable pub advance_at :
      ℕ → Clock → List (Task D) → Server D → List (Task D) × Server D × List Log
  advance_at i now [] s = ([], s, [])
  advance_at zero now (t ∷ ts) s = advance_in (advance F now t s) ts
  advance_at (suc i) now (t ∷ ts) s = behind t (advance_at i now ts s)

  abbrev pub step : System D → ℕ × Clock → System D
  step y (i, now) =
      let (ts, s, logs) = advance_at i now y.tasks y.server in
      record { tasks = ts; server = s; logs = y.logs ++ logs }

  -- A schedule: which task makes each step, and the clocks at it.
  unfoldable pub run : System D → List (ℕ × Clock) → System D
  run y [] = y
  run y (e ∷ es) = run (step y e) es

  abbrev pub is_failure : Log → Bool
  is_failure (store_failed e) = true
  is_failure (invalid_metrics client e) = false
  is_failure (alert_firing host metric) = false
  is_failure (host_initialized host status) = false
  is_failure (status_changed host before after) = false
  is_failure (queue_full client) = false

  abbrev pub Succeed : List Log → Type 0
  Succeed = All (λ l. is_failure l ≡ false)

  -- The metrics that a task holds have a host name.
  abbrev IsNamed : Task D → Type 0
  IsNamed (parsing client message) = Unit
  IsNamed (adding_history client m) = m.hostname ≢ []
  IsNamed (evaluating client m) = m.hostname ≢ []
  IsNamed (storing client m) = m.hostname ≢ []
  IsNamed (tracking client m) = m.hostname ≢ []
  IsNamed (queueing client m) = m.hostname ≢ []
  IsNamed returned = Unit

  firing_log-Succeed : (alerts : List (ManagedAlert D)) → Succeed (firing_log alerts)
  unfolding firing_log
  firing_log-Succeed [] = tt
  firing_log-Succeed (a ∷ alerts) = ground (arith, firing_log-Succeed alerts)

  initialized-Succeed : (h : Bytes) (c : StateTracker.StateChange) → Succeed (initialized h c)
  initialized-Succeed h c = ground arith

  advance-IsNamed :
      (now : Clock) (t : Task D) (s : Server D)
      → IsNamed t
      → let r = advance F now t s in IsNamed r.0 × Succeed r.2
  unfolding advance
  advance-IsNamed now (parsing client message) s n = elim (Result-cases (deserialize F message)) [
    | inl (e, h) ↦ rw h (tt, (refl, tt))
    | inr (m, h) ↦ rw h ((deserialize-IsValid F message m h).hostname, tt)
  ]
  advance-IsNamed now (adding_history client m) s n = (n, tt)
  advance-IsNamed now (evaluating client m) s n =
      (n, firing_log-Succeed (AlertManager.update F now.steady m s.alert_manager).1)
  advance-IsNamed now (storing client m) s n =
      rw (update_stores F now.system m s.metrics_store n) (n, tt)
  advance-IsNamed now (tracking client m) s n =
      (n, initialized-Succeed m.hostname (StateTracker.update m.hostname online s.state_tracker).1)
  advance-IsNamed now (queueing client m) s n = (tt, tt)
  advance-IsNamed now returned s n = (tt, tt)

  advance_at-IsNamed :
      (i : ℕ) (now : Clock) (ts : List (Task D)) (s : Server D)
      → All IsNamed ts
      → let r = advance_at i now ts s in All IsNamed r.0 × Succeed r.2
  unfolding advance_at
  advance_at-IsNamed zero now [] s n = (tt, tt)
  advance_at-IsNamed (suc i) now [] s n = (tt, tt)
  advance_at-IsNamed zero now (t ∷ ts) s n =
      let r = advance-IsNamed now t s n.0 in ((r.0, n.1), r.1)
  advance_at-IsNamed (suc i) now (t ∷ ts) s n =
      let r = advance_at-IsNamed i now ts s n.1 in ((n.0, r.0), r.1)

  run-IsNamed :
      (y : System D) (es : List (ℕ × Clock))
      → All IsNamed y.tasks
      → Succeed y.logs
      → Succeed (run y es).logs
  unfolding run
  run-IsNamed y [] n l = l
  run-IsNamed y ((i, now) ∷ es) n l =
      let r = advance_at-IsNamed i now y.tasks y.server n in
      run-IsNamed (step y (i, now)) es r.0 (All-append _ y.logs _ l r.1)

  -- The tasks of these messages, in workers that are about to run them.
  abbrev pub begin : List (Bytes × Bytes) → Server D → System D
  begin messages s = record { tasks = map (λ m. parsing m.0 m.1) messages; server = s; logs = [] }

  begin-IsNamed :
      (messages : List (Bytes × Bytes)) → All IsNamed (map (λ m. parsing m.0 m.1) messages)
  begin-IsNamed [] = tt
  begin-IsNamed (m ∷ messages) = (tt, begin-IsNamed messages)

  -- Whatever messages arrive, and however the steps of their tasks interleave, no call of the
  -- metrics store fails.
  pub run-Succeed :
      (messages : List (Bytes × Bytes)) (s : Server D) (es : List (ℕ × Clock))
      → Succeed (run (begin messages s) es).logs
  run-Succeed messages s es = run-IsNamed (begin messages s) es (begin-IsNamed messages) tt

  -- The first task starts, the second overtakes it before the metrics store, and the first goes on.
  abbrev pub overtaking : Clocks → Clocks → List (ℕ × Clock)
  overtaking c d =
      (0, c.parse)
      ∷ (0, c.add)
      ∷ (0, c.evaluate)
      ∷ (1, d.parse)
      ∷ (1, d.add)
      ∷ (1, d.evaluate)
      ∷ (1, d.store)
      ∷ (1, d.track)
      ∷ (1, d.queue)
      ∷ (0, c.store)
      ∷ (0, c.track)
      ∷ (0, c.queue)
      ∷ []

  -- Of two messages from one host that two workers run at the same time, the one that was sent first
  -- can be the one that the metrics store keeps.
  pub overtaken :
      (c d : Clocks) (client m₁ m₂ : Bytes) (x₁ x₂ : SystemMetrics D) (s : Server D)
      → deserialize F m₁ ≡ ok x₁
      → deserialize F m₂ ≡ ok x₂
      → let y = run (begin ((client, m₁) ∷ (client, m₂) ∷ []) s) (overtaking c d) in
        (y.tasks ≡ returned ∷ returned ∷ [])
        × (get_latest x₁.hostname y.server.metrics_store
            ≡ some (record { metrics = x₁; updated_at = c.store.system }))
  unfolding run advance_at advance
  overtaken c d client m₁ m₂ x₁ x₂ s e₁ e₂ =
      let store = c.store.system in
      rw
        (
          e₁,
          e₂,
          update_stores F d.store.system x₂ s.metrics_store
              (deserialize-IsValid F m₂ x₂ e₂).hostname,
          update_stores F store x₁ _ (deserialize-IsValid F m₁ x₁ e₁).hostname,
        )
        (refl, Latest.get_latest-step_self store x₁ _ (deserialize-IsValid F m₁ x₁ e₁).hostname)
