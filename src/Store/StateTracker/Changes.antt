-- ===== src/Store/StateTracker/Changes.antt =====
-- `StateTracker::update`, src/store/StateTracker.cpp: what one call reports and stores.
use lmonitor.Base.{
  ◌≡◌, ◌≢◌, ◌↔◌, inl, inr, true, not, none, some, Option-cases, arith, if◌then◌else◌,
}
use lmonitor.Base.Text.{Bytes, bytes_eq, bytes_eq_iff, bytes_key}
use lmonitor.Base.Map.{lookup, lookup-insert}
use lmonitor.Store.MetricsStore.{HostStatus, offline}
use lmonitor.Store.StateTracker.{StateTracker, same, update}

-- A change is reported exactly if the state differs from the last one of this host, or the host is
-- new; the report has the last state, OFFLINE for a new host, and the new one. The new state is
-- then the last one of the host, and no other host's state moves.
pub update_lem :
    (h k : Bytes) (now : HostStatus) (t : StateTracker)
    → (((update h now t).1.changed ≡ true) ↔ (lookup h t.last_states ≢ some now))
      × ((update h now t).1.new_status ≡ now)
      × ((lookup h t.last_states ≡ none) → (update h now t).1.old_status ≡ offline)
      × ((old : HostStatus)
          → lookup h t.last_states ≡ some old
          → (update h now t).1.old_status ≡ old)
      × (lookup k (update h now t).0.last_states
          ≡ (if bytes_eq h k then some now else lookup k t.last_states))
unfolding update
update_lem h k now t =
    let put = lookup-insert h k now t.last_states in
    let eq = bytes_eq_iff h k in
    elim (Option-cases (lookup h t.last_states)) [
      | inl e ↦ rw (e, update) (ground arith, ground arith, ground arith, λ old q. cc, put)
      | inr (last, e) ↦
          rw (e, update)
            (ground arith, ground arith, ground arith, λ old q. cc, ground (arith, put, eq))
    ]

-- The new state of each host.
pub lookup-update :
    (h k : Bytes) (now : HostStatus) (t : StateTracker)
    → lookup k (update h now t).0.last_states
      ≡ (if bytes_eq h k then some now else lookup k t.last_states)
lookup-update h k now t = (update_lem h k now t).4

-- The report depends on the last state of this host alone.
pub update-lookup :
    (h : Bytes) (now : HostStatus) (t u : StateTracker)
    → lookup h t.last_states ≡ lookup h u.last_states
    → (update h now t).1 ≡ (update h now u).1
unfolding update
update-lookup h now t u e =
    rw (e, update)
      (elim (Option-cases (lookup h u.last_states)) [
        | inl absent ↦
            rw absent (λ i. record { changed = true; old_status = offline; new_status = now })
        | inr (last, found) ↦
            rw found
              (λ i. record { changed = not (same last now); old_status = last; new_status = now })
      ])
