-- ===== src/Alert/Manager.antt =====
-- include/alert/AlertManager.h and src/alert/AlertManager.cpp. `update` and `getActiveAlerts` hold
-- the mutex for their whole bodies. The steady clock's answer is an argument of `update`.
pub mod Keys
pub mod Automaton
pub mod Reports
pub mod Configured
use lmonitor.Base.{
  ℕ, ◌-◌, ◌/◌, Bool, true, false, not, ◌&&◌, ◌||◌, List, [], ◌∷◌, ◌++◌, Option, none, some, Result,
  ok, err, ◌>>=◌, leb, ltb, if◌then◌else◌,
}
use lmonitor.Base.Text.{Bytes, codes, bytes_eq, bytes_key}
use lmonitor.Base.Map.{Map, lookup, insert}
use lmonitor.Base.Number.{ℤ, pos, negsuc, NumberError}
use lmonitor.Config.{Config, get_int, get_double}
use lmonitor.Float.{Float}
use lmonitor.Model.{SystemMetrics}
use lmonitor.Alert.Evaluator.{Alert, AlertLevel, evaluate}

pub data AlertState : Type 0 where
  normal pending firing : AlertState

pub record ManagedAlert (D : Type 0) : Type 0 where
  pub hostname : Bytes
  pub metric : Bytes
  pub level : AlertLevel
  pub state : AlertState
  pub current_value : D
  pub threshold : D
  pub message : Bytes
  pub first_detected : ℕ
  pub last_update : ℕ

pub record AlertManager (D : Type 0) : Type 0 where
  pub alerts : Map Bytes (ManagedAlert D)
  pub fire_duration : ℤ
  pub cpu_threshold : D
  pub memory_threshold : D

-- Ticks of the steady clock, nanoseconds, in a second.
abbrev pub ticks_per_second : ℕ
ticks_per_second = 1_000_000_000

abbrev pub is_firing : AlertState → Bool
is_firing AlertState.firing = true
is_firing _ = false

abbrev pub is_normal : AlertState → Bool
is_normal AlertState.normal = true
is_normal _ = false

unfoldable pub make_key : Bytes → Bytes → Bytes
make_key hostname metric = hostname ++ (codes "_" ++ metric)

-- `duration >= fireDuration_`, on a duration in whole seconds
abbrev pub lasted : ℕ → ℤ → Bool
lasted seconds (pos n) = leb n seconds
lasted seconds (negsuc n) = true

-- The constructor; std::stoi and std::stod may throw.
unfoldable pub create : {D : Type 0} → Float D → Config → Result NumberError (AlertManager D)
create F config = do
  fire ← get_int (codes "fire_duration") (pos 5) config
  cpu ← get_double F.stod (codes "cpu_threshold") (F.of_nat 80) config
  memory ← get_double F.stod (codes "memory_threshold") (F.of_nat 90) config
  ok (record { alerts = []; fire_duration = fire; cpu_threshold = cpu; memory_threshold = memory })

module _ {D : Type 0} where
  abbrev pub key_of : Alert D → Bytes
  key_of a = make_key a.hostname a.metric

  -- A new entry.
  abbrev pub detected : ℕ → Alert D → ManagedAlert D
  detected now a = record {
    hostname = a.hostname;
    metric = a.metric;
    level = a.level;
    state = AlertState.pending;
    current_value = a.current_value;
    threshold = a.threshold;
    message = a.message;
    first_detected = now;
    last_update = now;
  }

  -- An entry that is there, with the new value.
  abbrev pub refreshed : ℕ → Alert D → ManagedAlert D → ManagedAlert D
  refreshed now a m = record m { current_value = a.current_value; last_update = now }

  -- `duration >= fireDuration_ && managed.state != Firing`
  abbrev pub fires : ℕ → ℤ → ManagedAlert D → Bool
  fires now fire m =
      lasted ((now - m.first_detected) / ticks_per_second) fire && not (is_firing m.state)

  -- The body of the first loop on what `find` returns: the entry to store, and what is reported.
  abbrev pub raise_found :
      ℕ → ℤ → Alert D → Option (ManagedAlert D) → ManagedAlert D × List (ManagedAlert D)
  raise_found now fire a none = (detected now a, [])
  raise_found now fire a (some old) =
      let m = refreshed now a old in
      let up = record m { state = AlertState.firing } in
      if fires now fire m then (up, up ∷ []) else (m, [])

  unfoldable pub raise_all :
      ℕ
      → ℤ
      → List (Alert D)
      → Map Bytes (ManagedAlert D)
      → Map Bytes (ManagedAlert D) × List (ManagedAlert D)
  raise_all now fire [] m = (m, [])
  raise_all now fire (a ∷ raw) m =
      let (entry, reported) = raise_found now fire a (lookup (key_of a) m) in
      let (m', later) = raise_all now fire raw (insert (key_of a) entry m) in
      (m', reported ++ later)

  -- `currentAlertKeys.find(key) != end()`
  unfoldable pub is_current : Bytes → List (Alert D) → Bool
  is_current k [] = false
  is_current k (a ∷ raw) = bytes_eq (key_of a) k || is_current k raw

  abbrev pub resolved : ManagedAlert D → ManagedAlert D
  resolved m = if is_firing m.state then record m { state = AlertState.normal } else m

  -- The second loop.
  unfoldable pub resolve_all :
      List (Alert D) → Map Bytes (ManagedAlert D) → Map Bytes (ManagedAlert D)
  resolve_all raw [] = []
  resolve_all raw ((k, m) ∷ rest) =
      (k, if is_current k raw then m else resolved m) ∷ resolve_all raw rest

  -- The lines that the second loop logs.
  unfoldable pub resolve_log : List (Alert D) → Map Bytes (ManagedAlert D) → List Bytes
  resolve_log raw [] = []
  resolve_log raw ((k, m) ∷ rest) =
      let later = resolve_log raw rest in
      if not (is_current k raw) && is_firing m.state
      then (codes "Alert resolved: " ++ (m.hostname ++ (codes " " ++ m.metric))) ∷ later
      else later

  abbrev pub raw_alerts : Float D → SystemMetrics D → AlertManager D → List (Alert D)
  raw_alerts F m s = evaluate F m s.cpu_threshold s.memory_threshold

  unfoldable pub update :
      Float D → ℕ → SystemMetrics D → AlertManager D → AlertManager D × List (ManagedAlert D)
  unfolding raise_all resolve_all
  update F now metrics s =
      let raw = raw_alerts F metrics s in
      let (m, reported) = raise_all now s.fire_duration raw s.alerts in
      (record s { alerts = resolve_all raw m }, reported)

  -- What `update` logs.
  unfoldable pub update_log : Float D → ℕ → SystemMetrics D → AlertManager D → List Bytes
  unfolding resolve_log raise_all
  update_log F now metrics s =
      let raw = raw_alerts F metrics s in
      resolve_log raw (raise_all now s.fire_duration raw s.alerts).0

  unfoldable pub active : Map Bytes (ManagedAlert D) → List (ManagedAlert D)
  active [] = []
  active ((k, m) ∷ rest) =
      let later = active rest in if not (is_normal m.state) then m ∷ later else later

  unfoldable pub get_active_alerts : AlertManager D → List (ManagedAlert D)
  unfolding active
  get_active_alerts s = active s.alerts
