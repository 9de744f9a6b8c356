-- ===== src/Server/Agents.antt =====
-- An agent and the server together: src/agent/MonitorAgent.cpp, the frames between the two, and
-- src/server/TcpServer.cpp.
use lmonitor.Base.{
  ℕ, ◌<◌, ◌≤◌, ◌≡◌, refl, sym, ap, ◌∙◌, true, List, [], ◌∷◌, none, some, ok, length, map, All,
  append-nil,
}
use lmonitor.Base.Text.{Bytes}
use lmonitor.Channel.{Run}
use lmonitor.FrameCodec.{max_frame_size, try_decode}
use lmonitor.FrameCodec.Stream.{frames}
use lmonitor.TcpConnection.{create, set_message_callback, on_inputs}
use lmonitor.TcpConnection.Drain.{deliveries}
use lmonitor.TcpConnection.Delivery.{stream, answers}
use lmonitor.Float.{Float}
use lmonitor.Model.{SystemMetrics}
use lmonitor.Collector.Process.{ProcessInfo}
use lmonitor.Serializer.Writer.{serialize}
use lmonitor.Serializer.RoundTrip.Sendable.{PrintsFixed}
use lmonitor.Store.HistoryStore as HistoryStore
use lmonitor.Store.HistoryStore.Window as Window
use lmonitor.Store.MetricsStore as MetricsStore
use lmonitor.Store.MetricsStore.{get_latest}
use lmonitor.Store.MetricsStore.Latest as Latest
use lmonitor.Agent.{Retry, is_connected}
use lmonitor.Agent.Sampling.{MonitorAgent, Snapshot, Round, run}
use lmonitor.Agent.Sampling.Stream.{Measured, Takes, run-frames}
use lmonitor.Server.{Server, tasks_of}
use lmonitor.Server.Pipeline.{run_tasks, Sent, CanSend, messages, updates, points, stored-frames}

no_bytes : try_decode [] ≡ ok none
unfolding try_decode
no_bytes = refl

module _ {D : Type 0} (F : Float D) (round : D → D) (P : PrintsFixed F round) where
  abbrev pub metrics_of : List (Sent F round P) → List (SystemMetrics D)
  metrics_of = map (λ j. j.0)

  messages-metrics :
      (js : List (Sent F round P)) → messages F round P js ≡ map (serialize F) (metrics_of js)
  messages-metrics [] = refl
  messages-metrics (j ∷ js) = ap (◌∷◌ (serialize F j.0)) (messages-metrics js)

  metrics-fit :
      (js : List (Sent F round P))
      → All (CanSend F round P) js
      → All (λ m. length (serialize F m) ≤ max_frame_size) (metrics_of js)
  metrics-fit [] h = tt
  metrics-fit (j ∷ js) h = (h.0.1, metrics-fit js h.1)

  -- An agent that stays connected measures in each round what fits the format and a frame, `send` goes
  -- on taking its bytes, and the server's socket gives these bytes over any number of readiness
  -- events, each in reads of any size. With one worker and stores that were empty, when the tasks have
  -- run: `getLatest` returns the metrics that the agent measured last under the name, rounded by the
  -- print, and the history has the newest `n` of the points.
  pub end_to_end :
      (sort : List (ProcessInfo D) → List (ProcessInfo D)) (agent : MonitorAgent D)
      (xs : List (Round D)) (js : List (Sent F round P)) (previous : Snapshot) (r : Retry)
      (fd n : ℕ) (name h : Bytes) (events : List (List Bytes)) (s : Server D)
      → Measured F sort agent previous xs (metrics_of js)
      → All (CanSend F round P) js
      → is_connected r.client ≡ true
      → Takes F sort agent xs (metrics_of js)
      → stream events ≡ (run F sort agent (map some xs) previous r).0
      → 0 < n
      → s.metrics_store ≡ MetricsStore.empty
      → s.history_store ≡ HistoryStore.create n
      → let effects = deliveries name (messages F round P js) in
        let t = run_tasks F (map (λ j. j.1) js) (tasks_of effects) s in
        (on_inputs (answers events) (set_message_callback (create fd name))
          ≡ Run.returned (set_message_callback (create fd name)) effects)
        × (get_latest h t.metrics_store ≡ Latest.last_of h none (updates F round P js))
        × (HistoryStore.get h t.history_store
            ≡ Window.newest n (Window.recorded h [] (points F round P js)))
  unfolding create set_message_callback
  end_to_end sort agent xs js previous r fd n name h events s e S on t w pos m₀ h₀ =
      let out =
        w
        ∙ ap (λ p. p.0)
            (run-frames F sort agent xs (metrics_of js) previous r e (metrics-fit js S) on t)
        ∙ ap frames (sym (messages-metrics js))
        ∙ sym (append-nil _) in
      stored-frames F round P n h js [] events (set_message_callback (create fd name)) s pos S refl
        refl refl no_bytes no_bytes out m₀ h₀
