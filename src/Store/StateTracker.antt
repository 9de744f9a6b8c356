-- ===== src/Store/StateTracker.antt =====
-- include/store/StateTracker.h and src/store/StateTracker.cpp: the last state that was reported
-- for each host.
pub mod Changes
use lmonitor.Base.{Bool, true, false, not, List, [], Option, none, some, if◌then◌else◌}
use lmonitor.Base.Text.{Bytes, bytes_key}
use lmonitor.Base.Map.{Map, lookup, insert}
use lmonitor.Store.MetricsStore.{HostStatus, online, stale, offline}

pub record StateTracker : Type 0 where
  pub last_states : Map Bytes HostStatus

pub record StateChange : Type 0 where
  pub changed : Bool
  pub old_status : HostStatus
  pub new_status : HostStatus

abbrev pub empty : StateTracker
empty = record { last_states = [] }

-- `==` on the enumeration
abbrev pub same : HostStatus → HostStatus → Bool
same online online = true
same stale stale = true
same offline offline = true
same _ _ = false

-- The two branches of `update`, on what `find` returns.
change_from : Bytes → HostStatus → Option HostStatus → StateTracker → StateTracker × StateChange
change_from hostname current none t = (
  record t { last_states = insert hostname current t.last_states },
  record { changed = true; old_status = offline; new_status = current },
)
change_from hostname current (some last) t = (
  if not (same last current)
      then record t { last_states = insert hostname current t.last_states }
      else t,
  record { changed = not (same last current); old_status = last; new_status = current },
)

unfoldable pub update : Bytes → HostStatus → StateTracker → StateTracker × StateChange
unfolding change_from
update hostname current t = change_from hostname current (lookup hostname t.last_states) t

unfoldable pub clear : StateTracker → StateTracker
clear t = record t { last_states = [] }
