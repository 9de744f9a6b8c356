-- ===== src/Programs.antt =====
-- The two programs: src/main.cpp, the agent, and src/server_main.cpp, the server.
pub mod Exits
mod Tests
use lmonitor.Base.{
  ℕ, Bool, false, List, [], Option, none, some, Result, ok, err, ◌>>=◌, if◌then◌else◌, ◌==◌, ◌||◌,
}
use lmonitor.Base.Text.{Bytes, codes}
use lmonitor.Base.Number.{ℤ, pos, NumberError}
use lmonitor.Float.{Float}
use lmonitor.Config.{Config, load, get, get_int, get_double}
use lmonitor.Collector.Process.{ProcessInfo}
use lmonitor.Agent as Agent
use lmonitor.Agent.Sampling as Sampling
use lmonitor.Agent.Sampling.{Snapshot, Round, AgentError, End, stopped, sending, thrown}
use lmonitor.Server.Startup as Startup
use lmonitor.Server.Startup.{TcpServer, to_uint16}

-- What `main` returns: 0 or 1.
pub data Exit : Type 0 where
  success failure : Exit

abbrev pub no_config : Config
no_config = record { values = [] }

pub record AgentSettings (D : Type 0) : Type 0 where
  pub interval : D
  pub server_ip : Bytes
  pub server_port : ℕ

unfoldable pub agent_settings :
    {D : Type 0} → Float D → Config → Result NumberError (AgentSettings D)
agent_settings F config = do
  interval ← get_double F.stod (codes "agent.interval") (F.of_nat 1) config
  port ← get_int (codes "agent.server_port") (pos 9000) config
  ok (record {
    interval = interval;
    server_ip = get (codes "agent.server_ip") (codes "127.0.0.1") config;
    server_port = to_uint16 port;
  })

-- What the agent meets: the two calls of `sigaction`, the default interface, `sysconf`, the first
-- readings, the clock before the loop, and the rounds until the flag is cleared; `none` stands for
-- an exception.
pub record World (D : Type 0) : Type 0 where
  pub interrupt_handled : Bool
  pub terminate_handled : Bool
  pub interface : Option Bytes
  pub cpus : ℤ
  pub first : Option Snapshot
  pub started_at : ℕ
  pub rounds : List (Option (Round D))

-- The signal handler: what it makes of `g_running`.
unfoldable pub handle_signal : ℕ → Bool → Bool
handle_signal signal running = if signal == 2 || signal == 15 then false else running

unfoldable pub register_signal_handlers : {D : Type 0} → World D → Bool
register_signal_handlers w = if w.interrupt_handled then w.terminate_handled else false

abbrev pub ended : End → Option Exit
ended (stopped snapshot retry) = some success
ended sending = none
ended (thrown e) = some failure

module _ {D : Type 0} (F : Float D) (sort : List (ProcessInfo D) → List (ProcessInfo D)) where
  -- `agent.run(g_running)`; an exception of the first readings leaves it.
  abbrev pub run_from : Sampling.MonitorAgent D → World D → Option Snapshot → Option Exit
  run_from agent w none = some failure
  run_from agent w (some readings) =
      ended (Sampling.run F sort agent w.rounds readings (Agent.start w.started_at)).1

  abbrev pub made : Result AgentError (Sampling.MonitorAgent D) → World D → Option Exit
  made (err e) w = some failure
  made (ok agent) w = run_from agent w w.first

  abbrev pub configured : Result NumberError (AgentSettings D) → World D → Option Exit
  configured (err e) w = some failure
  configured (ok settings) w =
      if register_signal_handlers w
      then made (Sampling.create F w.interface w.cpus settings.interval) w
      else some failure

  -- `none` while the agent is still in a call of `send`.
  unfoldable pub agent_main : Option Bytes → World D → Option Exit
  unfolding agent_settings register_signal_handlers
  agent_main file w =
      let (loaded, config) = load file no_config in
      if loaded then configured (agent_settings F config) w else some failure

abbrev pub server_ports : Config → Result NumberError (ℕ × TcpServer)
server_ports config = do
  tcp ← get_int (codes "server.tcp_port") (pos 9000) config
  http ← get_int (codes "server.http_port") (pos 8080) config
  server ← Startup.create (to_uint16 tcp) config
  ok (to_uint16 http, server)

-- The argument says whether `run` of this server returns, or ends by an exception.
unfoldable pub server_main : Option Bytes → (TcpServer → Bool) → Exit
server_main file returns =
    let (loaded, config) = load file no_config in
    if loaded
    then elim (server_ports config) [
      | err e ↦ failure
      | ok (http, server) ↦ if returns server then success else failure
    ]
    else failure
