-- ===== src/Store/MetricsStore/Status.antt =====
-- `MetricsStore::getStatus`, src/store/MetricsStore.cpp: the liveness of a host by its last record.
use lmonitor.Base.{ℕ, ◌+◌, ◌*◌, ◌≤◌, ◌<◌, ◌≡◌, ◌↔◌, arith}
use lmonitor.Store.MetricsStore.{
  HostStatus, online, stale, offline, StoredMetrics, ticks_per_second, get_status,
}

abbrev pub severity : HostStatus → ℕ
severity online = 0
severity stale = 1
severity offline = 2

module _ {D : Type 0} where
  -- A host is online until its record is six seconds old, stale until it is sixteen seconds old, and
  -- offline from then on. A record from the future counts as new.
  pub get_status_lem :
      (now : ℕ) (r : StoredMetrics D)
      → ((get_status now r ≡ online) ↔ (now < r.updated_at + 6 * ticks_per_second))
        × ((get_status now r ≡ stale) ↔ (
            (r.updated_at + 6 * ticks_per_second ≤ now)
            × (now < r.updated_at + 16 * ticks_per_second)))
        × ((get_status now r ≡ offline) ↔ (r.updated_at + 16 * ticks_per_second ≤ now))
  unfolding get_status
  get_status_lem now r = ground arith

  -- While no record arrives, a host's status never gets better.
  pub get_status_mono :
      (now later : ℕ) (r : StoredMetrics D)
      → now ≤ later
      → severity (get_status now r) ≤ severity (get_status later r)
  unfolding get_status
  get_status_mono now later r h = ground arith
