-- ===== src/Store/MetricsStore.antt =====
-- include/store/MetricsStore.h and src/store/MetricsStore.cpp: the latest metrics of each host.
pub mod Status
pub mod Latest
use lmonitor.Base.{
  is_empty, is_empty_cases, ℕ, ◌-◌, ◌/◌, Bool, List, [], ◌∷◌, map, Option, none, some, Result, ok,
  err, ◌>>=◌, ltb, leb, if◌then◌else◌, length,
}
use lmonitor.Base.Text.{Bytes, codes, bytes_key}
use lmonitor.Base.Map.{Map, lookup, insert}
use lmonitor.Model.{SystemMetrics}

pub data HostStatus : Type 0 where
  online stale offline : HostStatus

pub record StoredMetrics (D : Type 0) : Type 0 where
  pub metrics : SystemMetrics D
  pub updated_at : ℕ

pub record MetricsStore (D : Type 0) : Type 0 where
  pub metrics_by_hostname : Map Bytes (StoredMetrics D)

-- Ticks of the system clock, nanoseconds, in a second.
abbrev pub ticks_per_second : ℕ
ticks_per_second = 1_000_000_000

abbrev pub online_threshold : ℕ
online_threshold = 5

abbrev pub stale_threshold : ℕ
stale_threshold = 15

-- std::invalid_argument of `update`
pub data StoreError : Type 0 where
  empty_hostname : StoreError

abbrev pub empty : {D : Type 0} → MetricsStore D
empty = record { metrics_by_hostname = [] }

module _ {D : Type 0} where
  unfoldable pub update : ℕ → SystemMetrics D → MetricsStore D → Result StoreError (MetricsStore D)
  update now metrics s =
      if is_empty metrics.hostname
      then err empty_hostname
      else ok (record s {
        metrics_by_hostname =
            insert metrics.hostname (record { metrics = metrics; updated_at = now })
              s.metrics_by_hostname;
      })

  unfoldable pub get_latest : Bytes → MetricsStore D → Option (StoredMetrics D)
  get_latest hostname s = lookup hostname s.metrics_by_hostname

  unfoldable pub get_all : MetricsStore D → List (StoredMetrics D)
  get_all s = map (λ entry. entry.1) s.metrics_by_hostname

  -- `getStatus(storedMetrics)`; the age is cut down to whole seconds.
  unfoldable pub get_status : ℕ → StoredMetrics D → HostStatus
  get_status now stored =
      if ltb now stored.updated_at
      then HostStatus.online
      else (let age = (now - stored.updated_at) / ticks_per_second in
          if leb age online_threshold
          then HostStatus.online
          else if leb age stale_threshold
          then HostStatus.stale
          else HostStatus.offline)

  -- `getStatus(hostname, status)`
  unfoldable pub get_host_status : ℕ → Bytes → MetricsStore D → Option HostStatus
  get_host_status now hostname s = elim (get_latest hostname s) [
    | none ↦ none
    | some stored ↦ some (get_status now stored)
  ]

  unfoldable pub size : MetricsStore D → ℕ
  size s = length s.metrics_by_hostname

  unfoldable pub is_empty_store : MetricsStore D → Bool
  is_empty_store s = is_empty s.metrics_by_hostname

unfoldable pub status_to_string : HostStatus → Bytes
status_to_string HostStatus.online = codes "ONLINE"
status_to_string HostStatus.stale = codes "STALE"
status_to_string HostStatus.offline = codes "OFFLINE"
