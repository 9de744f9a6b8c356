-- ===== src/Server/Timer.antt =====
-- The status timer's callback of src/server/TcpServer.cpp, host by host.
pub mod Race
use lmonitor.Base.{ℕ, suc, ◌≡◌, Bool, false, List, [], ◌∷◌, ◌++◌, Option, none, some, if◌then◌else◌}
use lmonitor.Base.Text.{Bytes, bytes_eq, bytes_key}
use lmonitor.Base.Map.{Map, lookup}
use lmonitor.Store.MetricsStore as MetricsStore
use lmonitor.Store.MetricsStore.{StoredMetrics, get_status}
use lmonitor.Store.MetricsStore.Latest as Latest
use lmonitor.Store.StateTracker as StateTracker
use lmonitor.Store.StateTracker.{StateTracker}
use lmonitor.Server.{
  Server, Log, invalid_metrics, alert_firing, store_failed, host_initialized, status_changed,
  queue_full, status_log,
}

abbrev is_about : Bytes → Log → Bool
is_about h (status_changed host before after) = bytes_eq host h
is_about h (invalid_metrics client e) = false
is_about h (alert_firing host metric) = false
is_about h (store_failed e) = false
is_about h (host_initialized host status) = false
is_about h (queue_full client) = false

-- The status changes of one host in a log.
abbrev lines_of : Bytes → List Log → List Log
lines_of h [] = []
lines_of h (l ∷ logs) = let later = lines_of h logs in if is_about h l then l ∷ later else later

-- What the timer leaves for one host, that the store holds or not.
abbrev pub Seen :
    {D : Type 0}
    → (ℕ → ℕ)
    → Bytes
    → Option (StoredMetrics D)
    → StateTracker
    → StateTracker × List Log
    → Type 0
Seen clock h none t (after, logs) =
    (lookup h after.last_states ≡ lookup h t.last_states) × (lines_of h logs ≡ [])
Seen clock h (some r) t (after, logs) =
    (j : ℕ) × (lookup h after.last_states ≡ some (get_status (clock j) r))
    × (lines_of h logs ≡ status_log h (StateTracker.update h (get_status (clock j) r) t).1)

module _ {D : Type 0} (clock : ℕ → ℕ) (h : Bytes) where
  -- The loop, on the tracker alone.
  scan : ℕ → List (StoredMetrics D) → StateTracker → StateTracker × List Log
  scan i [] tracker = (tracker, [])
  scan i (host ∷ hosts) tracker =
      let (tracker₁, change) =
        StateTracker.update host.metrics.hostname (get_status (clock i) host) tracker in
      let (tracker₂, later) = scan (suc i) hosts tracker₁ in
      (tracker₂, status_log host.metrics.hostname change ++ later)
