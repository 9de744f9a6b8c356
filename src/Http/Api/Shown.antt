-- ===== src/Http/Api/Shown.antt =====
-- The answers of the API of src/http/HttpServer.cpp, that a browser can read.
use Prim.{tt}
use lmonitor.Base.{ℕ, ◌≤◌, ◌≡◌, refl, ap, ◌∙◌, true, List, [], ◌∷◌, Option, none, some, All}
use lmonitor.Base.Text.{codes}
use lmonitor.Float.{Float}
use lmonitor.Model.{SystemMetrics}
use lmonitor.Store.HistoryStore as HistoryStore
use lmonitor.Store.HistoryStore.{MetricsHistoryPoint, MetricsHistoryStore}
use lmonitor.Store.MetricsStore.{StoredMetrics, get_all, get_latest}
use lmonitor.Alert.Manager.{AlertState, ManagedAlert, get_active_alerts}
use lmonitor.Http.Json.{Json}
use lmonitor.Http.Json.Escape.{IsPlain}
use lmonitor.Http.Json.Parser.{parse}
use lmonitor.Http.Json.RoundTrip.{IsNumber, IsGood, AreGood, weight, parse-print}
use lmonitor.Http.Api.{HttpServer, state_name}
use lmonitor.Http.Api.Values.{
  each, host_fields, detail_fields, load_fields, disk_fields, network_fields, point_fields,
  alert_fields, natural-IsGood, all_plain-IsPlain, fields-IsGood,
}
use lmonitor.Http.Api.Pages.{
  Page, hosts, alerts, detail, history, detail_of, page_text, page_json, host_json, point_json,
  alert_json, page_text-print,
}

state_name-IsPlain : (s : AlertState) → All IsPlain (state_name s)
state_name-IsPlain AlertState.normal = all_plain-IsPlain (codes "NORMAL") refl
state_name-IsPlain AlertState.pending = all_plain-IsPlain (codes "PENDING") refl
state_name-IsPlain AlertState.firing = all_plain-IsPlain (codes "FIRING") refl

module _ {D : Type 0} (F : Float D) where
  -- The names have no control character but line ends and tabs, and the numbers are finite.
  abbrev pub IsHostShown : SystemMetrics D → Type 0
  IsHostShown m =
      All IsPlain m.hostname
      × (F.is_finite m.cpu_usage_percent ≡ true)
      × (F.is_finite m.memory_usage_percent ≡ true)
      × (F.is_finite m.load1 ≡ true)

  abbrev pub IsDetailShown : Option (StoredMetrics D) → Type 0
  IsDetailShown none = Unit
  IsDetailShown (some stored) =
      IsHostShown stored.metrics
      × (F.is_finite stored.metrics.load5 ≡ true)
      × (F.is_finite stored.metrics.load15 ≡ true)
      × (F.is_finite stored.metrics.disk_usage_percent ≡ true)
      × All IsPlain stored.metrics.network_interface

  abbrev pub IsPointShown : MetricsHistoryPoint D → Type 0
  IsPointShown p =
      (F.is_finite p.cpu_usage_percent ≡ true) × (F.is_finite p.memory_usage_percent ≡ true)

  abbrev pub IsAlertShown : ManagedAlert D → Type 0
  IsAlertShown a =
      All IsPlain a.hostname
      × All IsPlain a.metric
      × (F.is_finite a.current_value ≡ true)
      × (F.is_finite a.threshold ≡ true)
      × All IsPlain a.message

  abbrev pub IsShown : Page → HttpServer D → Type 0
  IsShown hosts s = All (λ r. IsHostShown r.metrics) (get_all s.store)
  IsShown alerts s = All IsAlertShown (get_active_alerts s.alert_manager)
  IsShown (detail h) s = IsDetailShown (get_latest h s.store)
  IsShown (history h) s = All IsPointShown (HistoryStore.get h s.history_store)

  each-IsGood :
      {A : Type 0} (f : A → Json) (P : A → Type 0) (xs : List A)
      → ((x : A) → P x → IsGood (f x))
      → All P xs
      → AreGood (each f xs)
  unfolding IsGood
  each-IsGood f P [] h g = tt
  each-IsGood f P (x ∷ xs) h (g, gs) = (h x g, each-IsGood f P xs h gs)

  -- The default print of a finite number is a JSON number.
  abbrev pub PrintsNumber : Type 0
  PrintsNumber = (d : D) → F.is_finite d ≡ true → IsNumber (F.print d)

  module _ (P : PrintsNumber) where
    host_json-IsGood : (m : SystemMetrics D) → IsHostShown m → IsGood (host_json F m)
    unfolding IsGood
    host_json-IsGood m (name, cpu, memory, load) =
        fields-IsGood (host_fields F.print m) refl
          (name, (P _ cpu, (P _ memory, (P _ load, (natural-IsGood m.uptime_seconds, tt)))))

    point_json-IsGood : (p : MetricsHistoryPoint D) → IsPointShown p → IsGood (point_json F p)
    unfolding IsGood
    point_json-IsGood p (cpu, memory) =
        fields-IsGood (point_fields F.print p) refl
          (natural-IsGood p.timestamp_ms, (P _ cpu, (P _ memory, tt)))

    alert_json-IsGood : (a : ManagedAlert D) → IsAlertShown a → IsGood (alert_json F a)
    unfolding IsGood
    alert_json-IsGood a (host, metric, value, threshold, message) =
        fields-IsGood (alert_fields F.print a) refl (
          host,
          (metric, (state_name-IsPlain a.state, (P _ value, (P _ threshold, (message, tt))))),
        )

    detail_of-IsGood :
        (o : Option (StoredMetrics D)) → IsDetailShown o → IsGood (detail_of F.print o)
    unfolding IsGood
    detail_of-IsGood none g = tt
    detail_of-IsGood (some stored) ((name, cpu, memory, load1), load5, load15, disk, interface) =
        fields-IsGood (detail_fields F.print stored.metrics) refl (
          name,
          (
            P _ cpu,
            (
              P _ memory,
              (
                natural-IsGood stored.metrics.uptime_seconds,
                (
                  natural-IsGood stored.metrics.logical_cpu_count,
                  (
                    fields-IsGood (load_fields F.print stored.metrics) refl
                        (P _ load1, (P _ load5, (P _ load15, tt))),
                    (
                      fields-IsGood (disk_fields F.print stored.metrics) refl (P _ disk, tt),
                      (
                        fields-IsGood (network_fields F.print stored.metrics) refl (interface, tt),
                        tt,
                      ),
                    ),
                  ),
                ),
              ),
            ),
          ),
        )

    page_json-IsGood : (p : Page) (s : HttpServer D) → IsShown p s → IsGood (page_json F p s)
    unfolding IsGood
    page_json-IsGood hosts s g =
        each-IsGood _ _ (get_all s.store) (λ r. host_json-IsGood r.metrics) g
    page_json-IsGood alerts s g =
        each-IsGood _ _ (get_active_alerts s.alert_manager) alert_json-IsGood g
    page_json-IsGood (detail h) s g = detail_of-IsGood (get_latest h s.store) g
    page_json-IsGood (history h) s g =
        each-IsGood _ _ (HistoryStore.get h s.history_store) point_json-IsGood g

    -- Each text of the API is JSON for what the stores hold, and is read whole: the hosts, the alerts
    -- that are pending or firing, the history of a host, and the metrics of a host, or an empty
    -- object if there is no such host, as far as a finite number is printed as a JSON number.
    pub parse-page_text :
        (p : Page) (s : HttpServer D) (fuel : ℕ)
        → IsShown p s
        → weight (page_json F p s) ≤ fuel
        → parse fuel (page_text F p s) ≡ some (page_json F p s, [])
    parse-page_text p s fuel g w =
        ap (parse fuel) (page_text-print F p s)
        ∙ parse-print fuel (page_json F p s) [] (page_json-IsGood p s g) w tt
