-- ===== src/Programs/Tests.antt =====
-- The agent's program on a small configuration, and the theorem about it.
use lmonitor.Base.{ℕ, ◌≡◌, refl, true, [], ◌∷◌, ◌++◌, some}
use lmonitor.Base.Text.{Bytes, codes}
use lmonitor.Base.Number.{pos}
use lmonitor.Sample.{whole}
use lmonitor.Config.{load}
use lmonitor.Agent.Sampling as Sampling
use lmonitor.Collector.Process as Process
use lmonitor.Config.{get_double, load_lines, load_line, get_int, get}
use lmonitor.Base.Map.{lookup, insert}
use lmonitor.Base.Lines.{lines, cut}
use lmonitor.Base.Text.{bytes_eq}
use lmonitor.Base.Number.{stoull, skip_spaces, scan_digits, signed_to_string, stoi}
use lmonitor.Base.Decimal.{to_string}
use lmonitor.Collector.Network.{calculate_rate}
use lmonitor.FrameCodec.{encode, write_header}
use lmonitor.Agent.{
  connect_to_server, disconnect, is_connected, is_due, reconnect, send_all, send_loop, start,
  transmit,
}
use lmonitor.Collector.Cpu.{calculate_usage, idle_time, total}
use lmonitor.Collector.Host.{disk_percent, memory_percent, used_kb}
use lmonitor.Collector.Process.{by_pid, total_cpu_time, usages}
use lmonitor.Serializer.Writer.{serialize, write_load, write_network, write_processes, write_system}
use lmonitor.Server.Startup.{to_uint16}
use lmonitor.Collector.Process.Example.{place_all}
use lmonitor.Agent.Sampling.{create, build_metrics, frame_of, measure, metrics_with}
use lmonitor.Agent.Sampling.Example.{first, quiet}
use lmonitor.Programs.{
  World, success, no_config, agent_main, agent_settings, register_signal_handlers,
}
use lmonitor.Programs.Exits.{Ran, agent_main-success}

abbrev settings_file : Bytes
settings_file = codes "[agent]" ++ 10 ∷ codes "interval=2" ++ 10 ∷ []

abbrev quiet_world : World ℕ
quiet_world = record {
  interrupt_handled = true;
  terminate_handled = true;
  interface = some (codes "eth0");
  cpus = pos 4;
  first = some first;
  started_at = 0;
  rounds = some quiet ∷ [];
}

quiet_main : agent_main whole place_all (some settings_file) quiet_world ≡ some success
unfolding agent_main agent_settings register_signal_handlers load Sampling.run
    Process.calculate_usage get_double load_lines load_line get_int get lookup insert lines cut
    bytes_eq stoull skip_spaces scan_digits signed_to_string stoi to_string create build_metrics
    frame_of measure metrics_with calculate_rate encode write_header connect_to_server disconnect
    is_connected is_due reconnect send_all send_loop start transmit calculate_usage idle_time total
    disk_percent memory_percent used_kb by_pid total_cpu_time usages serialize write_load
    write_network write_processes write_system to_uint16 place_all
quiet_main = refl

agent_main-success_example :
    (text : Bytes) × (some settings_file ≡ some text)
    × Ran whole place_all (load (some text) no_config).1 quiet_world
agent_main-success_example =
    agent_main-success whole place_all (some settings_file) quiet_world quiet_main
