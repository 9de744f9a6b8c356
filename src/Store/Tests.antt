-- ===== src/Store/Tests.antt =====
-- The stores at work, and the theorems about them at these inputs.
use lmonitor.Base.{ℕ, ◌≡◌, refl, List, [], ◌∷◌, some, arith}
use lmonitor.Base.Text.{bytes_eq, bytes_key}
use lmonitor.Base.Map.{insert, erase, lookup}
use lmonitor.Sample.{host_a, host_b, metrics_of}
use lmonitor.Model.{SystemMetrics}
use lmonitor.Store.HistoryStore as History
use lmonitor.Store.HistoryStore.{Call, adds, clears_host, MetricsHistoryStore, sample}
use lmonitor.Store.HistoryStore.Window as Window
use lmonitor.Store.HistoryStore.Window.{get-run, newest, recorded}
use lmonitor.Store.MetricsStore.{StoredMetrics, online, stale, get_latest, update, empty}
use lmonitor.Store.MetricsStore.Latest.{last_of, get_latest-run, count_host, found, count-get_all}
use lmonitor.Store.MetricsStore.Latest as Latest
use lmonitor.Store.StateTracker as StateTracker

abbrev calls : List (Call ℕ)
calls =
    adds 1_000_000 host_a 10 20
    ∷ adds 2_000_000 host_a 11 21
    ∷ adds 2_500_000 host_b 50 60
    ∷ adds 3_000_000 host_a 12 22
    ∷ adds 4_000_000 [] 13 23
    ∷ clears_host host_b
    ∷ []

history-keeps_two :
    History.get host_a (Window.run (History.create 2) calls)
    ≡ sample 2_000_000 11 21 ∷ sample 3_000_000 12 22 ∷ []
unfolding Window.run History.create History.get History.add History.trim History.clear_host lookup
    insert erase bytes_eq
history-keeps_two = refl

get-run_example :
    History.get host_a (Window.run (History.create 2) calls) ≡ newest 2 (recorded host_a [] calls)
get-run_example = get-run 2 host_a calls (omega arith)

abbrev record_a : StoredMetrics ℕ
record_a = record { metrics = metrics_of host_a 10 20 30; updated_at = 7 }

abbrev updates : List (ℕ × SystemMetrics ℕ)
updates =
    (1, metrics_of host_a 10 20 30)
    ∷ (2, metrics_of host_b 40 50 60)
    ∷ (3, metrics_of [] 1 1 1)
    ∷ (4, metrics_of host_a 70 80 90)
    ∷ []

latest-a :
    get_latest host_a (Latest.run empty updates)
    ≡ some (record { metrics = metrics_of host_a 70 80 90; updated_at = 4 })
unfolding get_latest Latest.run update lookup insert bytes_eq
latest-a = refl

abbrev tracker : StateTracker.StateTracker
tracker = record { last_states = (host_a, online) ∷ (host_b, stale) ∷ [] }
