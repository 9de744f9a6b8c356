-- ===== src/Server/Timer/Race.antt =====
-- The status timer's callback of src/server/TcpServer.cpp beside the workers, step by step.
use lmonitor.Base.{ℕ, ◌≡◌, refl, ◌∙◌, List, [], ◌∷◌, ◌++◌, some, ok}
use lmonitor.Base.Text.{Bytes, bytes_eq_iff, bytes_key}
use lmonitor.Base.Map.{lookup}
use lmonitor.Float.{Float}
use lmonitor.Model.{SystemMetrics}
use lmonitor.Serializer.Reader.{deserialize}
use lmonitor.Serializer.Accepted.Valid.{deserialize-IsValid}
use lmonitor.Store.MetricsStore.{StoredMetrics, get_latest, get_status, get_all, online}
use lmonitor.Store.MetricsStore.Latest as Latest
use lmonitor.Store.StateTracker as StateTracker
use lmonitor.Store.StateTracker.Changes.{lookup-update}
use lmonitor.Server.{Server, TimerTask, getting, checking, check_host, tick, Clock, advance}
use lmonitor.Server.Worker.{Clocks, update_stores}
use lmonitor.Server.Interleaving as Interleaving
use lmonitor.Server.Interleaving.{System, begin, advance_at}

-- The workers with what they share, and the callback of the timer.
pub record Running (D : Type 0) : Type 0 where
  pub system : System D
  pub timer : TimerTask D

-- A step of the worker at an index, or of the timer, with the clocks at it.
pub data Turn : Type 0 where
  works : ℕ → Clock → Turn
  ticks : ℕ → Turn

module _ {D : Type 0} (F : Float D) where
  abbrev turn : Running D → Turn → Running D
  turn y (works i now) = record y { system = Interleaving.step F y.system (i, now) }
  turn y (ticks now) =
      let (timer, server, logs) = tick now y.timer y.system.server in
      record {
        system = record y.system { server = server; logs = y.system.logs ++ logs };
        timer = timer;
      }

  unfoldable pub run : Running D → List Turn → Running D
  run y [] = y
  run y (t ∷ turns) = run (turn y t) turns

  -- The timer copies the hosts, a worker runs a whole task, and the timer goes on.
  abbrev pub crossing : Clocks → ℕ → ℕ → List Turn
  crossing c before now =
      ticks before
      ∷ works 0 c.parse
      ∷ works 0 c.add
      ∷ works 0 c.evaluate
      ∷ works 0 c.store
      ∷ works 0 c.track
      ∷ works 0 c.queue
      ∷ ticks now
      ∷ []

  -- A worker can store fresh metrics of a host, and set its state to ONLINE, between `getAll` and
  -- the timer's look at the host. The timer then looks at the old metrics: the tracker gets their
  -- status, whatever it is, though `getLatest` returns the fresh ones.
  pub crossed :
      (c : Clocks) (before now : ℕ) (client message : Bytes) (x : SystemMetrics D)
      (old : StoredMetrics D) (others : List (StoredMetrics D)) (s : Server D)
      → deserialize F message ≡ ok x
      → get_all s.metrics_store ≡ old ∷ others
      → old.metrics.hostname ≡ x.hostname
      → let y =
          run
            (record { system = begin F ((client, message) ∷ []) s; timer = getting })
            (crossing c before now) in
        (y.timer ≡ checking others)
        × (get_latest x.hostname y.system.server.metrics_store
            ≡ some (record { metrics = x; updated_at = c.store.system }))
        × (lookup x.hostname y.system.server.state_tracker.last_states ≡ some (get_status now old))
  unfolding run tick check_host advance_at advance
  crossed c before now client message x old others s e copy same =
      let named = (deserialize-IsValid F message x e).hostname in
      let tracker = (StateTracker.update x.hostname online s.state_tracker).0 in
      rw (copy, e, update_stores F c.store.system x s.metrics_store named)
        (
          refl,
          Latest.get_latest-step_self c.store.system x s.metrics_store named,
          lookup-update old.metrics.hostname x.hostname (get_status now old) tracker
              ∙ rw ((bytes_eq_iff old.metrics.hostname x.hostname).1 same) refl,
        )
