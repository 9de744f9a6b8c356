-- ===== src/Http/Api.antt =====
-- The JSON texts of src/http/HttpServer.cpp.
pub mod Values
pub mod Pages
pub mod Shown
use lmonitor.Base.{ℕ, Bool, true, false, List, [], ◌∷◌, ◌++◌, Option, none, some}
use lmonitor.Base.Text.{Bytes, codes}
use lmonitor.Base.Decimal.{to_string}
use lmonitor.Float.{Float}
use lmonitor.Model.{SystemMetrics}
use lmonitor.Store.HistoryStore as HistoryStore
use lmonitor.Store.HistoryStore.{MetricsHistoryPoint, MetricsHistoryStore}
use lmonitor.Store.MetricsStore.{MetricsStore, StoredMetrics, get_all, get_latest}
use lmonitor.Alert.Manager.{AlertManager, AlertState, ManagedAlert, get_active_alerts}
use lmonitor.Http.Json.{json_escape}

-- The objects that the HTTP thread reads.
pub record HttpServer (D : Type 0) : Type 0 where
  pub store : MetricsStore D
  pub history_store : MetricsHistoryStore D
  pub alert_manager : AlertManager D

-- `json << a << b << …`, and what is written behind it
abbrev pub out : List Bytes → Bytes → Bytes
out [] rest = rest
out (part ∷ parts) rest = part ++ out parts rest

-- `if (!first) json << ","`
abbrev pub comma : Bool → Bytes → Bytes
comma true rest = rest
comma false rest = b',' ∷ rest

abbrev pub state_name : AlertState → Bytes
state_name AlertState.pending = codes "PENDING"
state_name AlertState.firing = codes "FIRING"
state_name AlertState.normal = codes "NORMAL"

module _ {D : Type 0} (F : Float D) where
  abbrev pub host_text : SystemMetrics D → Bytes → Bytes
  host_text m = out (
      codes "{"
      ∷ codes "\"hostname\":\""
      ∷ json_escape m.hostname
      ∷ codes "\","
      ∷ codes "\"cpu\":"
      ∷ F.print m.cpu_usage_percent
      ∷ codes ","
      ∷ codes "\"memory\":"
      ∷ F.print m.memory_usage_percent
      ∷ codes ","
      ∷ codes "\"load1\":"
      ∷ F.print m.load1
      ∷ codes ","
      ∷ codes "\"uptime\":"
      ∷ to_string m.uptime_seconds
      ∷ codes "}"
      ∷ [])

  unfoldable pub hosts_text : Bool → List (StoredMetrics D) → Bytes → Bytes
  hosts_text first [] rest = rest
  hosts_text first (host ∷ hosts) rest =
      comma first (host_text host.metrics (hosts_text false hosts rest))

  unfoldable pub build_hosts_json : MetricsStore D → Bytes
  unfolding hosts_text
  build_hosts_json store = b'[' ∷ hosts_text true (get_all store) (b']' ∷ [])

  abbrev pub detail_text : SystemMetrics D → Bytes → Bytes
  detail_text m = out (
      codes "{"
      ∷ codes "\"hostname\":\""
      ∷ json_escape m.hostname
      ∷ codes "\","
      ∷ codes "\"cpu\":"
      ∷ F.print m.cpu_usage_percent
      ∷ codes ","
      ∷ codes "\"memory\":"
      ∷ F.print m.memory_usage_percent
      ∷ codes ","
      ∷ codes "\"uptime_seconds\":"
      ∷ to_string m.uptime_seconds
      ∷ codes ","
      ∷ codes "\"logical_cpus\":"
      ∷ to_string m.logical_cpu_count
      ∷ codes ","
      ∷ codes "\"load\":{"
      ∷ codes "\"load1\":"
      ∷ F.print m.load1
      ∷ codes ","
      ∷ codes "\"load5\":"
      ∷ F.print m.load5
      ∷ codes ","
      ∷ codes "\"load15\":"
      ∷ F.print m.load15
      ∷ codes "},"
      ∷ codes "\"disk\":{"
      ∷ codes "\"usage_percent\":"
      ∷ F.print m.disk_usage_percent
      ∷ codes "},"
      ∷ codes "\"network\":{"
      ∷ codes "\"interface\":\""
      ∷ json_escape m.network_interface
      ∷ codes "\""
      ∷ codes "}"
      ∷ codes "}"
      ∷ [])

  unfoldable pub build_host_detail_json : Bytes → MetricsStore D → Bytes
  build_host_detail_json hostname store = elim (get_latest hostname store) [
    | none ↦ codes "{}"
    | some stored ↦ detail_text stored.metrics []
  ]

  abbrev pub point_text : MetricsHistoryPoint D → Bytes → Bytes
  point_text p = out (
      codes "{"
      ∷ codes "\"timestamp\":"
      ∷ to_string p.timestamp_ms
      ∷ codes ","
      ∷ codes "\"cpu\":"
      ∷ F.print p.cpu_usage_percent
      ∷ codes ","
      ∷ codes "\"memory\":"
      ∷ F.print p.memory_usage_percent
      ∷ codes "}"
      ∷ [])

  unfoldable pub history_text : Bool → List (MetricsHistoryPoint D) → Bytes → Bytes
  history_text first [] rest = rest
  history_text first (point ∷ points) rest =
      comma first (point_text point (history_text false points rest))

  unfoldable pub build_host_history_json : Bytes → MetricsHistoryStore D → Bytes
  unfolding history_text
  build_host_history_json hostname history =
      b'[' ∷ history_text true (HistoryStore.get hostname history) (b']' ∷ [])

  abbrev pub alert_text : ManagedAlert D → Bytes → Bytes
  alert_text a = out (
      codes "{"
      ∷ codes "\"hostname\":\""
      ∷ json_escape a.hostname
      ∷ codes "\","
      ∷ codes "\"metric\":\""
      ∷ json_escape a.metric
      ∷ codes "\","
      ∷ codes "\"state\":\""
      ∷ state_name a.state
      ∷ codes "\","
      ∷ codes "\"current_value\":"
      ∷ F.print a.current_value
      ∷ codes ","
      ∷ codes "\"threshold\":"
      ∷ F.print a.threshold
      ∷ codes ","
      ∷ codes "\"message\":\""
      ∷ json_escape a.message
      ∷ codes "\""
      ∷ codes "}"
      ∷ [])

  unfoldable pub alerts_text : Bool → List (ManagedAlert D) → Bytes → Bytes
  alerts_text first [] rest = rest
  alerts_text first (alert ∷ alerts) rest =
      comma first (alert_text alert (alerts_text false alerts rest))

  unfoldable pub build_alerts_json : AlertManager D → Bytes
  unfolding alerts_text
  build_alerts_json manager = b'[' ∷ alerts_text true (get_active_alerts manager) (b']' ∷ [])
