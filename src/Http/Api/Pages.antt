-- ===== src/Http/Api/Pages.antt =====
-- The answers of the API of src/http/HttpServer.cpp, as a browser reads them.
use lmonitor.Base.{◌≡◌, refl, ap, ◌∙◌, Bool, true, false, List, [], ◌∷◌, Option, none, some}
use lmonitor.Base.Text.{Bytes, codes}
use lmonitor.Float.{Float}
use lmonitor.Model.{SystemMetrics}
use lmonitor.Store.HistoryStore as HistoryStore
use lmonitor.Store.HistoryStore.{MetricsHistoryPoint, MetricsHistoryStore}
use lmonitor.Store.MetricsStore.{StoredMetrics, get_all, get_latest}
use lmonitor.Alert.Manager.{ManagedAlert, get_active_alerts}
use lmonitor.Http.Json.{Json, array, object, no_members, print, print_more_items}
use lmonitor.Http.Api.{
  HttpServer, hosts_text, build_hosts_json, build_host_detail_json, detail_text, history_text,
  build_host_history_json, alerts_text, build_alerts_json,
}
use lmonitor.Http.Api.Values.{
  each, fields, host_fields, detail_fields, point_fields, alert_fields, host_text-print,
  detail_text-print, point_text-print, alert_text-print,
}

-- The loop of the builders, which puts a comma before each element but the first.
abbrev Loop : {A : Type 0} → (A → Bytes → Bytes) → (Bool → List A → Bytes → Bytes) → Type 0
Loop {A} text loop =
    ((first : Bool) (rest : Bytes) → loop first [] rest ≡ rest)
    × ((x : A) (xs : List A) (rest : Bytes) → loop true (x ∷ xs) rest ≡ text x (loop false xs rest))
    × ((x : A) (xs : List A) (rest : Bytes)
        → loop false (x ∷ xs) rest ≡ b',' ∷ text x (loop false xs rest))

module _ {A : Type 0} (f : A → Json) (text : A → Bytes → Bytes)
    (loop : Bool → List A → Bytes → Bytes) (L : Loop text loop)
    (same : (x : A) (rest : Bytes) → text x rest ≡ print (f x) rest) where
  loop-more :
      (xs : List A) (rest : Bytes) → loop false xs (b']' ∷ rest) ≡ print_more_items (each f xs) rest
  unfolding print
  loop-more [] rest = L.0 false (b']' ∷ rest)
  loop-more (x ∷ xs) rest =
      L.2 x xs (b']' ∷ rest)
      ∙ ap (◌∷◌ b',') (same x (loop false xs (b']' ∷ rest)) ∙ ap (print (f x)) (loop-more xs rest))

  loop-array :
      (xs : List A) (rest : Bytes)
      → b'[' ∷ loop true xs (b']' ∷ rest) ≡ print (array (each f xs)) rest
  unfolding print
  loop-array [] rest = ap (◌∷◌ b'[') (L.0 true (b']' ∷ rest))
  loop-array (x ∷ xs) rest = ap (◌∷◌ b'[') (
      L.1 x xs (b']' ∷ rest)
      ∙ same x (loop false xs (b']' ∷ rest))
      ∙ ap (print (f x)) (loop-more xs rest))

-- The four texts of the API.
pub data Page : Type 0 where
  hosts alerts : Page
  detail history : Bytes → Page

abbrev pub detail_of : {D : Type 0} → (D → Bytes) → Option (StoredMetrics D) → Json
detail_of show none = object no_members
detail_of show (some stored) = object (fields (detail_fields show stored.metrics))

module _ {D : Type 0} (F : Float D) where
  abbrev pub host_json : SystemMetrics D → Json
  host_json m = object (fields (host_fields F.print m))

  abbrev pub point_json : MetricsHistoryPoint D → Json
  point_json p = object (fields (point_fields F.print p))

  abbrev pub alert_json : ManagedAlert D → Json
  alert_json a = object (fields (alert_fields F.print a))

  abbrev pub page_text : Page → HttpServer D → Bytes
  page_text hosts s = build_hosts_json F s.store
  page_text alerts s = build_alerts_json F s.alert_manager
  page_text (detail h) s = build_host_detail_json F h s.store
  page_text (history h) s = build_host_history_json F h s.history_store

  -- What the page says of the stores.
  abbrev pub page_json : Page → HttpServer D → Json
  page_json hosts s = array (each (λ r. host_json r.metrics) (get_all s.store))
  page_json alerts s = array (each alert_json (get_active_alerts s.alert_manager))
  page_json (detail h) s = detail_of F.print (get_latest h s.store)
  page_json (history h) s = array (each point_json (HistoryStore.get h s.history_store))

  detail_of-print :
      (o : Option (StoredMetrics D))
      → elim o [ none ↦ codes "{}" | some stored ↦ detail_text F stored.metrics [] ]
        ≡ print (detail_of F.print o) []
  unfolding print
  detail_of-print none = refl
  detail_of-print (some stored) = detail_text-print F stored.metrics []

  pub page_text-print : (p : Page) (s : HttpServer D) → page_text p s ≡ print (page_json p s) []
  unfolding build_hosts_json build_alerts_json build_host_detail_json build_host_history_json
  page_text-print hosts s =
      loop-array (λ (r : StoredMetrics D). host_json r.metrics) _ (hosts_text F)
        (λ a b. refl, λ a b c. refl, λ a b c. refl) (λ r rest. host_text-print F r.metrics rest)
        (get_all s.store) []
  page_text-print alerts s =
      loop-array alert_json _ (alerts_text F) (λ a b. refl, λ a b c. refl, λ a b c. refl)
        (alert_text-print F) (get_active_alerts s.alert_manager) []
  page_text-print (detail h) s = detail_of-print (get_latest h s.store)
  page_text-print (history h) s =
      loop-array point_json _ (history_text F) (λ a b. refl, λ a b c. refl, λ a b c. refl)
        (point_text-print F) (HistoryStore.get h s.history_store) []
