-- ===== src/Http/Tests.antt =====
-- The HTTP server at work, and the theorems about it at these inputs.
use Prim.{tt}
use lmonitor.Base.{ℕ, ◌≡◌, refl, [], ◌∷◌, Option, none, some, arith}
use lmonitor.Base.Text.{Bytes, codes, bytes_eq}
use lmonitor.Base.Map.{insert, lookup}
use lmonitor.Base.Decimal.{to_string}
use lmonitor.Base.Number.{pos}
use lmonitor.Sample.{whole, metrics_of}
use lmonitor.Agent as Agent
use lmonitor.Agent.{accepted, interrupted, failed, is_connected}
use lmonitor.Store.HistoryStore as HistoryStore
use lmonitor.Store.MetricsStore as MetricsStore
use lmonitor.Store.MetricsStore.Latest as Latest
use lmonitor.Http.Response.{json_type, ok_json}
use lmonitor.Http.Response.Reading.{read_response}
use lmonitor.Http.Json.{json_escape}
use lmonitor.Http.Json.Parser.{parse}
use lmonitor.Http.Json.RoundTrip.{IsGood, weight}
use lmonitor.Http.Api.{HttpServer, build_hosts_json}
use lmonitor.Http.Api.Values.{natural-IsGood}
use lmonitor.Http.Api.Pages.{hosts, detail, page_text, page_json}
use lmonitor.Http.Api.Shown.{PrintsNumber, parse-page_text}
use lmonitor.Http.Routes.{handle_client}
use lmonitor.Http.Routes.Requests.{url, get, browse}
use lmonitor.Http.Sending.{send_all, returned, send_all-agent}

abbrev server : HttpServer ℕ
server = record {
  store = Latest.run MetricsStore.empty ((7, metrics_of (codes "a\"b") 10 20 30) ∷ []);
  history_store = HistoryStore.create 3;
  alert_manager = record {
    alerts = [];
    fire_duration = pos 5;
    cpu_threshold = 80;
    memory_threshold = 90;
  };
}

abbrev no_files : Bytes → Option Bytes
no_files path = none

whole-PrintsNumber : PrintsNumber whole
whole-PrintsNumber d h = unfold IsGood in natural-IsGood d

hosts_page :
    build_hosts_json whole server.store
    ≡ codes "[{\"hostname\":\"a\\\"b\",\"cpu\":10,\"memory\":20,\"load1\":1,\"uptime\":1}]"
unfolding build_hosts_json json_escape Latest.run MetricsStore.update MetricsStore.get_all to_string
    insert
hosts_page = refl

-- A host name with a quotation mark.
browse_example :
    let response = ok_json (page_text whole hosts server) in
    (handle_client whole no_files (some (get (url hosts) (codes "Host: x"))) server ≡ some response)
    × (read_response response
        ≡ some (record {
          status = 200;
          content_type = json_type;
          body = page_text whole hosts server;
        }))
    × (parse 100 (page_text whole hosts server) ≡ some (page_json whole hosts server, []))
unfolding build_hosts_json json_escape Latest.run MetricsStore.update MetricsStore.get_all to_string
    insert weight
browse_example =
    browse whole no_files whole-PrintsNumber hosts (codes "Host: x") server 100 tt (omega arith)
      ((((refl, (refl, (refl, tt))), refl, refl, refl)), tt) (omega arith) (omega arith)

parse-page_text_example :
    parse 9 (page_text whole (detail (codes "x")) server)
    ≡ some (page_json whole (detail (codes "x")) server, [])
unfolding MetricsStore.get_latest Latest.run MetricsStore.update insert lookup bytes_eq weight
parse-page_text_example =
    parse-page_text whole whole-PrintsNumber (detail (codes "x")) server 9 tt (omega arith)

send_all-agent_example :
    let answers = accepted 2 ∷ interrupted ∷ failed ∷ [] in
    let r = Agent.send_all answers (codes "page") (record { socket_fd = some 5 }) in
    send_all answers (codes "page") ≡ (r.0, returned r.1)
unfolding is_connected
send_all-agent_example =
    send_all-agent (accepted 2 ∷ interrupted ∷ failed ∷ []) (codes "page")
      (record { socket_fd = some 5 }) refl
