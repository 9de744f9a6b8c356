-- ===== src/Store/HistoryStore.antt =====
-- include/store/MetricsHistoryStore.h and src/store/MetricsHistoryStore.cpp.
pub mod Window
use lmonitor.Base.{
  ℕ, zero, suc, ◌/◌, Bool, true, false, List, [], ◌∷◌, ◌++◌, Option, none, some, ltb, ◌==◌,
  if◌then◌else◌, length, is_empty,
}
use lmonitor.Base.Text.{Bytes, bytes_key}
use lmonitor.Base.Map.{Map, lookup, insert, erase}

pub record MetricsHistoryPoint (D : Type 0) : Type 0 where
  pub timestamp_ms : ℕ
  pub cpu_usage_percent : D
  pub memory_usage_percent : D

pub record MetricsHistoryStore (D : Type 0) : Type 0 where
  pub max_points_per_host : ℕ
  pub histories : Map Bytes (List (MetricsHistoryPoint D))

-- Ticks of the system clock, nanoseconds, in a millisecond.
abbrev pub ticks_per_ms : ℕ
ticks_per_ms = 1_000_000

-- The calls that change the store.
pub data Call (D : Type 0) : Type 0 where
  adds : ℕ → Bytes → D → D → Call D
  clears_host : Bytes → Call D
  clears : Call D

module _ {D : Type 0} where
  -- The sample of one call of `add`, stamped in milliseconds.
  abbrev pub sample : ℕ → D → D → MetricsHistoryPoint D
  sample now cpu memory = record {
    timestamp_ms = now / ticks_per_ms;
    cpu_usage_percent = cpu;
    memory_usage_percent = memory;
  }

  unfoldable pub create : ℕ → MetricsHistoryStore D
  create max_points = record {
    max_points_per_host = if max_points == 0 then 1 else max_points;
    histories = [];
  }

  -- `while (history.size() > maxPointsPerHost_) history.pop_front();`
  unfoldable pub trim : ℕ → List (MetricsHistoryPoint D) → List (MetricsHistoryPoint D)
  trim max [] = []
  trim max (p ∷ history) = elim (ltb max (suc (length history))) [
    | true ↦ trim max history
    | false ↦ p ∷ history
  ]

  -- `find`, with the empty sequence for a host that is not there, as `operator[]` and `get` do.
  abbrev pub found : Option (List (MetricsHistoryPoint D)) → List (MetricsHistoryPoint D)
  found none = []
  found (some history) = history

  unfoldable pub get : Bytes → MetricsHistoryStore D → List (MetricsHistoryPoint D)
  get hostname s = found (lookup hostname s.histories)

  unfoldable pub add : ℕ → Bytes → D → D → MetricsHistoryStore D → MetricsHistoryStore D
  unfolding trim
  add now hostname cpu memory s =
      if is_empty hostname
      then s
      else (let history = found (lookup hostname s.histories) ++ sample now cpu memory ∷ [] in
          record s { histories = insert hostname (trim s.max_points_per_host history) s.histories })

  unfoldable pub clear_host : Bytes → MetricsHistoryStore D → MetricsHistoryStore D
  clear_host hostname s = record s { histories = erase hostname s.histories }

  unfoldable pub clear : MetricsHistoryStore D → MetricsHistoryStore D
  clear s = record s { histories = [] }
