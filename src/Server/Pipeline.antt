-- ===== src/Server/Pipeline.antt =====
-- From the frames of an agent's metrics to the stores: src/network/TcpConnection.cpp, the message
-- callback and the workers' tasks of src/server/TcpServer.cpp, and the stores.
use Prim.{tt}
use lmonitor.Base.{
  ℕ, ◌<◌, ◌≤◌, ◌≡◌, refl, sym, ap, ◌∙◌, true, false, List, [], ◌∷◌, ◌++◌, none, ok, length, map,
  All, inl, inr, ok-injective,
}
use lmonitor.Base.Text.{Bytes}
use lmonitor.Channel.{Run}
use lmonitor.FrameCodec.{max_frame_size, try_decode}
use lmonitor.FrameCodec.Stream.{frames}
use lmonitor.TcpConnection.{TcpConnection, on_inputs}
use lmonitor.TcpConnection.Drain.{deliveries}
use lmonitor.TcpConnection.Delivery.{stream, answers, on_inputs-frames}
use lmonitor.Float.{Float}
use lmonitor.Model.{SystemMetrics}
use lmonitor.Serializer.Writer.{serialize}
use lmonitor.Serializer.RoundTrip.Sendable.{PrintsFixed, IsSendable, rounded}
use lmonitor.Serializer.RoundTrip.Whole.{deserialize-serialize}
use lmonitor.Store.HistoryStore as HistoryStore
use lmonitor.Store.HistoryStore.{adds}
use lmonitor.Store.HistoryStore.Window as Window
use lmonitor.Store.MetricsStore as MetricsStore
use lmonitor.Store.MetricsStore.{get_latest}
use lmonitor.Store.MetricsStore.Latest as Latest
use lmonitor.Server.{Server, Task, parsing, tasks_of, run_task}
use lmonitor.Server.Worker.{Clocks, clock_list, after_metrics, run_task-parsing}

module _ {D : Type 0} (F : Float D) where
  -- One worker, which runs the tasks in the order of the queue.
  unfoldable pub run_tasks : List Clocks → List (Task D) → Server D → Server D
  run_tasks [] ts s = s
  run_tasks (c ∷ cs) [] s = s
  run_tasks (c ∷ cs) (t ∷ ts) s = run_tasks cs ts (run_task F (clock_list c) t s).1

module _ {D : Type 0} (F : Float D) (round : D → D) (P : PrintsFixed F round) where
  -- What the agent sends, each with the clocks of the task that it becomes.
  abbrev pub Sent : Type 0
  Sent = SystemMetrics D × Clocks

  abbrev pub CanSend : Sent → Type 0
  CanSend j = IsSendable F round j.0 × (length (serialize F j.0) ≤ max_frame_size)

  abbrev pub messages : List Sent → List Bytes
  messages = map (λ j. serialize F j.0)

  abbrev pub updates : List Sent → List (ℕ × SystemMetrics D)
  updates = map (λ j. (j.1.store.system, rounded round j.0))

  abbrev pub points : List Sent → List (HistoryStore.Call D)
  points = map (λ j.
      adds j.1.add.system j.0.hostname (round j.0.cpu_usage_percent)
        (round j.0.memory_usage_percent))

  run_task-sent :
      (name : Bytes) (j : Sent) (s : Server D)
      → IsSendable F round j.0
      → (run_task F (clock_list j.1) (parsing name (serialize F j.0)) s).1
        ≡ after_metrics F j.1 name (rounded round j.0) s
  run_task-sent name j s S =
      let sent = deserialize-serialize F round P j.0 S in
      elim (run_task-parsing F j.1 name (serialize F j.0) s) [
        | inl (e, refused, _) ↦ cc
        | inr (m, accepted, run) ↦
            ap (λ x. x.1) run
            ∙ ap (λ x. after_metrics F j.1 name x s) (ok-injective (sym accepted ∙ sent))
      ]

  run_tasks-sent :
      (name : Bytes) (js : List Sent) (s : Server D)
      → All CanSend js
      → let t = run_tasks F (map (λ j. j.1) js) (tasks_of (deliveries name (messages js))) s in
        (t.metrics_store ≡ Latest.run s.metrics_store (updates js))
        × (t.history_store ≡ Window.run s.history_store (points js))
  unfolding run_tasks tasks_of Latest.run Window.run
  run_tasks-sent name [] s S = (refl, refl)
  run_tasks-sent name (j ∷ js) s (S, rest) =
      rw (run_task-sent name j s S.0)
        (run_tasks-sent name js (after_metrics F j.1 name (rounded round j.0) s) rest)

  messages-fit :
      (js : List Sent) → All CanSend js → All (λ m. length m ≤ max_frame_size) (messages js)
  messages-fit [] S = tt
  messages-fit (j ∷ js) (S, rest) = (S.1, messages-fit js rest)

  -- An agent's metrics within the limits of the format and of a frame, however their stream is cut
  -- into readiness events and these into reads, on an open connection that may have kept a part of
  -- the first frame, with one worker behind it and stores that were empty: the connection hands on
  -- one task for each, no more, and when they ran `getLatest` returns the metrics that were sent last
  -- under the name, rounded by the print, and the history has the newest `n` of the points.
  pub stored-frames :
      (n : ℕ) (h : Bytes) (js : List Sent) (r : Bytes) (events : List (List Bytes))
      (c : TcpConnection) (s : Server D)
      → 0 < n
      → All CanSend js
      → c.alive ≡ true
      → c.closing ≡ false
      → c.has_message_callback ≡ true
      → try_decode c.pending_data ≡ ok none
      → try_decode r ≡ ok none
      → c.pending_data ++ stream events ≡ frames (messages js) ++ r
      → s.metrics_store ≡ MetricsStore.empty
      → s.history_store ≡ HistoryStore.create n
      → let effects = deliveries c.client_name (messages js) in
        let t = run_tasks F (map (λ j. j.1) js) (tasks_of effects) s in
        (on_inputs (answers events) c ≡ Run.returned (record c { pending_data = r }) effects)
        × (get_latest h t.metrics_store ≡ Latest.last_of h none (updates js))
        × (HistoryStore.get h t.history_store ≡ Window.newest n (Window.recorded h [] (points js)))
  stored-frames n h js r events c s pos S live opened cb kept w e m₀ h₀ =
      let (m, p) = run_tasks-sent c.client_name js s S in
      (
        on_inputs-frames events c (messages js) r live opened cb kept (messages-fit js S) w e,
        ap (get_latest h) (m ∙ ap (λ x. Latest.run x (updates js)) m₀)
            ∙ Latest.get_latest-run h (updates js),
        ap (HistoryStore.get h) (p ∙ ap (λ x. Window.run x (points js)) h₀)
            ∙ Window.get-run n h (points js) pos,
      )
