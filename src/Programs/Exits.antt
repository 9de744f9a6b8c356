-- ===== src/Programs/Exits.antt =====
-- What it takes for the agent's `main` to return 0.
use lmonitor.Base.{
  ◌≡◌, refl, ap, Bool, true, false, List, [], ◌∷◌, map, Option, none, some, Result, ok, err,
  bind_ok, if◌then◌else◌, arith,
}
use lmonitor.Base.Text.{Bytes}
use lmonitor.Base.Number.{NumberError}
use lmonitor.Float.{Float}
use lmonitor.Model.{SystemMetrics}
use lmonitor.Config.{Config, load}
use lmonitor.Collector.Process.{ProcessInfo}
use lmonitor.Agent as Agent
use lmonitor.Agent.{Retry, transmit, reconnect}
use lmonitor.Agent.Sampling.{
  MonitorAgent, Snapshot, Round, AgentError, framed, End, stopped, sending, thrown, go_on, measure,
  frame_of, frame_result, create, run,
}
use lmonitor.FrameCodec.{encode}
use lmonitor.Serializer.Writer.{serialize}
use lmonitor.Agent.Sampling.Stream.{Measured}
use lmonitor.Programs.{
  Exit, success, failure, no_config, AgentSettings, agent_settings, World, register_signal_handlers,
  ended, run_from, made, configured, agent_main,
}

module _ {D : Type 0} (F : Float D) (sort : List (ProcessInfo D) → List (ProcessInfo D))
    (agent : MonitorAgent D) where
  -- Every round was measured.
  abbrev pub Completes : List (Option (Round D)) → Snapshot → Type 0
  Completes rounds previous =
      (xs : List (Round D)) × (ms : List (SystemMetrics D)) × (rounds ≡ map some xs)
      × Measured F sort agent previous xs ms

  frame_of-measure :
      (previous : Snapshot) (x : Round D) (bytes : Bytes)
      → frame_of F sort agent previous x ≡ ok bytes
      → (m : SystemMetrics D) × (measure F sort agent previous x ≡ ok m)
  unfolding frame_of
  frame_of-measure previous x bytes e =
      let (m, measured, _) =
        bind_ok (measure F sort agent previous x) (λ m. frame_result (encode (serialize F m))) e in
      (m, measured)

  go_on-stopped :
      (o : Bytes × Option Retry) (rest : Retry → Bytes × End) (s : Snapshot) (r : Retry)
      → (go_on o rest).1 ≡ stopped s r
      → (r₁ : Retry) × ((rest r₁).1 ≡ stopped s r)
  go_on-stopped (out, none) rest s r e = cc
  go_on-stopped (out, some r₁) rest s r e = (r₁, e)

  framed-stopped :
      (o : Result AgentError Bytes) (rest : Bytes → Bytes × End) (s : Snapshot) (r : Retry)
      → (framed o rest).1 ≡ stopped s r
      → (bytes : Bytes) × (o ≡ ok bytes) × ((rest bytes).1 ≡ stopped s r)
  framed-stopped (err e) rest s r h = cc
  framed-stopped (ok bytes) rest s r h = (bytes, refl, h)

  -- A loop that ends in order has measured every round.
  pub run-Completes :
      (rounds : List (Option (Round D))) (previous : Snapshot) (r : Retry) (s : Snapshot)
      (r' : Retry)
      → (run F sort agent rounds previous r).1 ≡ stopped s r'
      → Completes rounds previous
  unfolding run
  run-Completes [] previous r s r' e = ([], [], refl, tt)
  run-Completes (none ∷ rounds) previous r s r' e = cc
  run-Completes (some x ∷ rounds) previous r s r' e =
      let (bytes, sent, end) =
        framed-stopped (frame_of F sort agent previous x)
          (λ bytes.
            go_on (transmit x.failed_at x.answers bytes (reconnect x.reconnect_now x.attempt r))
              (run F sort agent rounds x.current))
          s r' e in
      let (r₁, later) =
        go_on-stopped (transmit x.failed_at x.answers bytes (reconnect x.reconnect_now x.attempt r))
          (run F sort agent rounds x.current) s r' end in
      let (m, measured) = frame_of-measure previous x bytes sent in
      let (xs, ms, same, all) = run-Completes rounds x.current r₁ s r' later in
      (x ∷ xs, m ∷ ms, ap (◌∷◌ (some x)) same, (measured, all))

module _ {D : Type 0} (F : Float D) (sort : List (ProcessInfo D) → List (ProcessInfo D)) where
  ended-stopped :
      (e : End) → ended e ≡ some success → (s : Snapshot) × (r : Retry) × (e ≡ stopped s r)
  ended-stopped (stopped s r) h = (s, r, refl)
  ended-stopped sending h = cc
  ended-stopped (thrown e) h = cc

  -- What has to be so for the agent to have run: its settings, its first readings, and its rounds.
  abbrev pub Ran : Config → World D → Type 0
  Ran config w =
      (settings : AgentSettings D) × (agent : MonitorAgent D) × (readings : Snapshot)
      × (agent_settings F config ≡ ok settings)
      × (w.interrupt_handled ≡ true)
      × (w.terminate_handled ≡ true)
      × (create F w.interface w.cpus settings.interval ≡ ok agent)
      × (w.first ≡ some readings)
      × Completes F sort agent w.rounds readings

  run_from-success :
      (agent : MonitorAgent D) (w : World D) (o : Option Snapshot)
      → run_from F sort agent w o ≡ some success
      → (readings : Snapshot) × (o ≡ some readings) × Completes F sort agent w.rounds readings
  run_from-success agent w none h = cc
  run_from-success agent w (some readings) h =
      let (s, r, e) = ended-stopped _ h in
      (
        readings,
        refl,
        run-Completes F sort agent w.rounds readings (Agent.start w.started_at) s r e,
      )

  made-success :
      (o : Result AgentError (MonitorAgent D)) (w : World D)
      → made F sort o w ≡ some success
      → (agent : MonitorAgent D) × (o ≡ ok agent)
        × (readings : Snapshot) × (w.first ≡ some readings)
        × Completes F sort agent w.rounds readings
  made-success (err e) w h = cc
  made-success (ok agent) w h =
      let (readings, first, rounds) = run_from-success agent w w.first h in
      (agent, refl, readings, first, rounds)

  if_success :
      {o : Option Exit} (b : Bool)
      → (if b then o else some failure) ≡ some success
      → (b ≡ true) × (o ≡ some success)
  if_success true h = (refl, h)
  if_success false h = cc

  handled_both :
      (w : World D)
      → register_signal_handlers w ≡ true
      → (w.interrupt_handled ≡ true) × (w.terminate_handled ≡ true)
  unfolding register_signal_handlers
  handled_both w h = ground arith

  configured-success :
      (o : Result NumberError (AgentSettings D)) (config : Config) (w : World D)
      → agent_settings F config ≡ o
      → configured F sort o w ≡ some success
      → Ran config w
  configured-success (err e) config w same h = cc
  configured-success (ok settings) config w same h =
      let (both, made_ok) = if_success (register_signal_handlers w) h in
      let (agent, created, readings, first, rounds) =
        made-success (create F w.interface w.cpus settings.interval) w made_ok in
      let (i, t) = handled_both w both in
      (settings, agent, readings, same, i, t, created, first, rounds)

  -- The agent's `main` returns 0 only when the configuration was there and its numbers were valid,
  -- both signal handlers were registered, the agent was created and read its first values, and then
  -- measured in every round.
  pub agent_main-success :
      (file : Option Bytes) (w : World D)
      → agent_main F sort file w ≡ some success
      → (text : Bytes) × (file ≡ some text) × Ran (load (some text) no_config).1 w
  unfolding agent_main load
  agent_main-success none w h = cc
  agent_main-success (some text) w h =
      let config = (load (some text) no_config).1 in
      (text, refl, configured-success (agent_settings F config) config w refl h)
