-- ===== src/Server/Tests.antt =====
-- The server at work, and the theorems about it at these inputs.
use Prim.{tt}
use lmonitor.Base.{
  ◌++◌, append-nil, take, drop, false, ℕ, suc, ◌+◌, ◌≡◌, refl, List, [], ◌∷◌, none, some, ok, err,
  ◌⊎◌, arith, map, flatten, inl, length, ◌≤◌, leb, true,
}
use mathlib.Core.List.{take-append-drop}
use lmonitor.Base.Text.{Bytes, codes, bytes_eq, bytes_key}
use lmonitor.Base.Map.{lookup, insert}
use lmonitor.Base.Decimal.{to_string}
use lmonitor.Base.Number.{pos, signed_to_string}
use lmonitor.Channel.{returned}
use lmonitor.FrameCodec.{max_frame_size, write_header}
use lmonitor.FrameCodec.RoundTrip.{try_decode_partial}
use lmonitor.FrameCodec.Stream.{frames}
use lmonitor.TcpConnection.{TcpConnection, delivered, create, set_message_callback, on_inputs}
use lmonitor.TcpConnection.Delivery.{stream, answers}
use lmonitor.TcpConnection.Drain.{deliveries}
use lmonitor.Sample.{whole, host_a, metrics_of}
use lmonitor.Model.{SystemMetrics}
use lmonitor.Serializer.Example.{whole-PrintsFixed, sent, sent-IsSendable, sample-IsSendable}
use lmonitor.Serializer.Numbers.{ParseError}
use lmonitor.Serializer.Reader.{deserialize}
use lmonitor.Serializer.Writer.{serialize}
use lmonitor.Serializer.RoundTrip.Whole.{deserialize-serialize}
use lmonitor.Store.HistoryStore as HistoryStore
use lmonitor.Store.HistoryStore.Window as Window
use lmonitor.Store.MetricsStore as MetricsStore
use lmonitor.Store.MetricsStore.{get_latest}
use lmonitor.Store.MetricsStore.Latest as Latest
use lmonitor.Store.StateTracker as StateTracker
use lmonitor.Server.{
  Server, Clock, invalid_metrics, parsing, run_task, status_changed, check_host, check_hosts,
  getting, checking, tasks_of, Task, on_timer,
}
use lmonitor.Server.Worker.{Clocks, clock_list, after_metrics, metrics_log, run_task-parsing}
use lmonitor.Server.Interleaving.{Succeed, begin, run, overtaking, run-Succeed, overtaken}
use lmonitor.Server.Callback.{on_messages, warnings, on_messages-burst}
use lmonitor.ThreadPool.{Shared}
use lmonitor.Collector.Process.Example.{place_all}
use lmonitor.Agent.{is_connected}
use lmonitor.Agent.Sampling as Sampling
use lmonitor.Agent.Sampling.Example.{
  monitor, first, quiet, connected, quiet_metrics, quiet-metrics, quiet-length, quiet-frame,
}
use lmonitor.Serializer.RoundTrip.Sendable.{IsSendable}
use lmonitor.Server.Agents.{end_to_end}
use lmonitor.Server.Timer.Race.{crossing, crossed}
use lmonitor.Server.Timer.Race as Race
use lmonitor.Server.Pipeline.{run_tasks, messages, updates, points, stored-frames}

abbrev at : ℕ → Clock
at n = record { system = n; steady = n }

abbrev clocks_from : ℕ → Clocks
clocks_from n = record {
  parse = at n;
  add = at (suc n);
  evaluate = at (2 + n);
  store = at (3 + n);
  track = at (4 + n);
  queue = at (5 + n);
}

abbrev idle : Server ℕ
idle = record {
  metrics_store = MetricsStore.empty;
  history_store = HistoryStore.create 3;
  alert_manager = record {
    alerts = [];
    fire_duration = pos 5;
    cpu_threshold = 80;
    memory_threshold = 90;
  };
  state_tracker = StateTracker.empty;
  pending_functors = [];
}

abbrev agent : Bytes
agent = codes "10.0.0.7:4242"

abbrev jobs : List (SystemMetrics ℕ × Clocks)
jobs = (sent, clocks_from 10) ∷ []

abbrev wire : Bytes
wire = frames (messages whole (λ d. d) whole-PrintsFixed jobs)

fits : (n : ℕ) → leb n max_frame_size ≡ true → n ≤ max_frame_size
fits n h = ground arith

sent-length : length (serialize whole sent) ≤ max_frame_size
unfolding serialize to_string signed_to_string
sent-length = fits (length (serialize whole sent)) refl

-- The first three bytes came in earlier events; the others come in three events of five reads.
abbrev halfway : TcpConnection
halfway = record (set_message_callback (create 9 agent)) { pending_data = take 3 wire }

abbrev wire_events : List (List Bytes)
wire_events =
    ((take 5 (drop 3 wire)) ∷ (take 40 (drop 8 wire)) ∷ [])
    ∷ ((take 1 (drop 48 wire)) ∷ (take 2 (drop 49 wire)) ∷ [])
    ∷ (drop 51 wire ∷ [])
    ∷ []

stored-frames_example :
    let effects = deliveries agent (messages whole (λ d. d) whole-PrintsFixed jobs) in
    let t = run_tasks whole (map (λ j. j.1) jobs) (tasks_of effects) idle in
    (on_inputs (answers wire_events) halfway
      ≡ returned (record halfway { pending_data = [] }) effects)
    × (get_latest host_a t.metrics_store
        ≡ Latest.last_of host_a none (updates whole (λ d. d) whole-PrintsFixed jobs))
    × (HistoryStore.get host_a t.history_store
        ≡ Window.newest 3
            (Window.recorded host_a [] (points whole (λ d. d) whole-PrintsFixed jobs)))
unfolding flatten create set_message_callback serialize to_string signed_to_string write_header
stored-frames_example =
    stored-frames whole (λ d. d) whole-PrintsFixed 3 host_a jobs [] wire_events halfway idle
      (omega arith) ((sent-IsSendable, sent-length), tt) refl refl refl
      (try_decode_partial (take 3 wire) (inl (omega arith)))
      (try_decode_partial [] (inl (omega arith))) refl refl refl

quiet-IsSendable : IsSendable whole (λ d. d) quiet_metrics
quiet-IsSendable = sample-IsSendable 75 40 40 [] refl refl refl (omega arith) tt

abbrev rounds : List (SystemMetrics ℕ × Clocks)
rounds = (quiet_metrics, clocks_from 10) ∷ []

abbrev quiet_stream : Bytes
quiet_stream = (Sampling.run whole place_all monitor (some quiet ∷ []) first connected).0

-- Two events, of which the first ends inside the header of the frame.
abbrev quiet_events : List (List Bytes)
quiet_events = (take 2 quiet_stream ∷ []) ∷ (drop 2 quiet_stream ∷ []) ∷ []

quiet_whole : stream quiet_events ≡ quiet_stream
unfolding flatten
quiet_whole =
    rw (append-nil (take 2 quiet_stream), append-nil (drop 2 quiet_stream))
      (rw (append-nil (drop 2 quiet_stream)) (take-append-drop 2 quiet_stream))

end_to_end_example :
    let effects = deliveries agent (messages whole (λ d. d) whole-PrintsFixed rounds) in
    let t = run_tasks whole (map (λ j. j.1) rounds) (tasks_of effects) idle in
    (on_inputs (answers quiet_events) (set_message_callback (create 9 agent))
      ≡ returned (set_message_callback (create 9 agent)) effects)
    × (get_latest host_a t.metrics_store
        ≡ Latest.last_of host_a none (updates whole (λ d. d) whole-PrintsFixed rounds))
    × (HistoryStore.get host_a t.history_store
        ≡ Window.newest 3
            (Window.recorded host_a [] (points whole (λ d. d) whole-PrintsFixed rounds)))
unfolding flatten is_connected
end_to_end_example =
    end_to_end whole (λ d. d) whole-PrintsFixed place_all monitor (quiet ∷ []) rounds first
      connected 9 3 agent host_a quiet_events idle (quiet-metrics, tt)
      ((quiet-IsSendable, quiet-length), tt) refl
      (((omega arith, (omega arith, tt)), quiet-frame), tt) quiet_whole (omega arith) refl refl

run_task-parsing_example :
    ((e : ParseError) × (deserialize whole (codes "x") ≡ err e)
      × (run_task whole (clock_list (clocks_from 10)) (parsing agent (codes "x")) idle
          ≡ (Task.returned, idle, invalid_metrics agent e ∷ [])))
    ⊎ ((m : SystemMetrics ℕ) × (deserialize whole (codes "x") ≡ ok m)
        × (run_task whole (clock_list (clocks_from 10)) (parsing agent (codes "x")) idle ≡ (
          Task.returned,
          after_metrics whole (clocks_from 10) agent m idle,
          metrics_log whole (clocks_from 10) m idle,
        )))
run_task-parsing_example = run_task-parsing whole (clocks_from 10) agent (codes "x") idle

-- The message that starts first is stored last.
overtaken_example :
    let y =
      run whole
        (begin whole ((agent, serialize whole sent) ∷ (agent, serialize whole sent) ∷ []) idle)
        (overtaking whole (clocks_from 10) (clocks_from 20)) in
    (y.tasks ≡ Task.returned ∷ Task.returned ∷ [])
    × (get_latest host_a y.server.metrics_store ≡ some (record { metrics = sent; updated_at = 13 }))
overtaken_example =
    let read = deserialize-serialize whole (λ d. d) whole-PrintsFixed sent sent-IsSendable in
    overtaken whole (clocks_from 10) (clocks_from 20) agent (serialize whole sent)
      (serialize whole sent) sent sent idle read read

run-Succeed_example :
    Succeed whole
      (run whole
        (begin whole ((agent, serialize whole sent) ∷ (agent, codes "x") ∷ []) idle)
        (overtaking whole (clocks_from 10) (clocks_from 20))).logs
run-Succeed_example =
    run-Succeed whole ((agent, serialize whole sent) ∷ (agent, codes "x") ∷ []) idle
      (overtaking whole (clocks_from 10) (clocks_from 20))

-- Twelve seconds after the last metrics the host is stale.
abbrev known : Server ℕ
known = record idle {
  metrics_store = Latest.run MetricsStore.empty ((7, metrics_of host_a 10 20 30) ∷ []);
  state_tracker = record { last_states = (host_a, MetricsStore.online) ∷ [] };
}

abbrev twelve_later : ℕ → ℕ
twelve_later i = 12_000_000_007 + i

stale_at_twelve :
    (on_timer twelve_later known).1
    ≡ status_changed host_a MetricsStore.online MetricsStore.stale ∷ []
unfolding on_timer check_hosts check_host MetricsStore.get_all MetricsStore.get_status Latest.run
    MetricsStore.update StateTracker.update lookup insert bytes_eq
stale_at_twelve = refl

-- A message of the host arrives while the timer is at its loop.
crossed_example :
    let y =
      Race.run whole
        (record {
          system = begin whole ((agent, serialize whole sent) ∷ []) known;
          timer = getting;
        })
        (crossing whole (clocks_from 12_000_000_000) 12_000_000_000 12_000_000_010) in
    (y.timer ≡ checking [])
    × (get_latest host_a y.system.server.metrics_store
        ≡ some (record { metrics = sent; updated_at = 12_000_000_003 }))
    × (lookup host_a y.system.server.state_tracker.last_states ≡ some MetricsStore.stale)
unfolding MetricsStore.get_all MetricsStore.get_status Latest.run MetricsStore.update insert
crossed_example =
    crossed whole (clocks_from 12_000_000_000) 12_000_000_000 12_000_000_010 agent
      (serialize whole sent) sent (record { metrics = metrics_of host_a 10 20 30; updated_at = 7 })
      [] known (deserialize-serialize whole (λ d. d) whole-PrintsFixed sent sent-IsSendable) refl
      refl

-- Two messages for the last place of the queue.
on_messages-burst_example :
    let es = delivered agent (codes "first") ∷ delivered agent (codes "second") ∷ [] in
    let s : Shared (Task ℕ) = record { max_queue_size = 1; tasks = []; stopping = false } in
    on_messages es s
    ≡ (record s { tasks = [] ++ take 1 (tasks_of es) }, warnings (drop 1 (tasks_of {D = ℕ} es)))
on_messages-burst_example =
    on_messages-burst (delivered agent (codes "first") ∷ delivered agent (codes "second") ∷ [])
      (record { max_queue_size = 1; tasks = []; stopping = false }) 1 refl refl
