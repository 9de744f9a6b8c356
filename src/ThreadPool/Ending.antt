-- ===== src/ThreadPool/Ending.antt =====
-- The steps of a pool behind the critical section and the notification of `ThreadPool::stop`,
-- src/thread/ThreadPool.cpp.
use lmonitor.Base.{
  ℕ, ◌+◌, ◌≤◌, ◌≡◌, refl, ap, ◌∙◌, ◌⊎◌, inl, Bool, true, false, not, List, [], ◌∷◌, none, some,
  arith,
}
use lmonitor.ThreadPool.{
  Happening, nothing, took, ended, try_submit, begin_stop, turn_at, Event, submits, stops,
  notifies_one, notifies_all, works, History, note, step, run,
}
use lmonitor.ThreadPool.Shutdown.{all_exited, note-workers}
use lmonitor.ThreadPool.Awake.{
  all_awake, weights, measure, can_step, notify_all-all_awake, notify_all-weights, wake_at-awake,
  turn_at-Descends, any_alive,
}

module _ {T : Type 0} where
  -- One for the step of a worker.
  abbrev pub working : Event T → ℕ
  working (works i) = 1
  working (submits t) = 0
  working stops = 0
  working (notifies_one i) = 0
  working notifies_all = 0

  -- The step of a worker that has none to make, which does nothing.
  abbrev pub is_idle : Event T → History T → Bool
  is_idle (works i) h = not (can_step i h.pool.workers)
  is_idle (submits t) h = false
  is_idle stops h = false
  is_idle (notifies_one i) h = false
  is_idle notifies_all h = false

  -- The pool is stopping, and no worker sleeps.
  abbrev IsEnding : History T → Type 0
  IsEnding h = (h.pool.shared.stopping ≡ true) × (all_awake h.pool.workers ≡ true)

  -- An event in such a pool.
  record Ends (h : History T) (e : Event T) (h' : History T) : Type 0 where
    still : IsEnding h'
    refuses : h'.accepted ≡ h.accepted
    descends :
        (measure h'.pool.workers h'.pool.shared + working e ≤ measure h.pool.workers h.pool.shared)
        ⊎ (is_idle e h ≡ true)

  note-accepted : (d : Happening T) (h : History T) → (note d h).accepted ≡ h.accepted
  note-accepted nothing h = refl
  note-accepted (took t) h = refl
  note-accepted (ended t) h = refl

  step-Ends : (h : History T) (e : Event T) → IsEnding h → Ends h e (step h e)
  unfolding step try_submit begin_stop
  step-Ends h (submits none) e = record { still = e; refuses = refl; descends = ground arith }
  step-Ends h (submits (some t)) e = record {
    still = ground (arith, e);
    refuses = ground (arith, e);
    descends = ground (arith, e);
  }
  step-Ends h stops e = record { still = (refl, e.1); refuses = refl; descends = ground arith }
  step-Ends h (notifies_one i) e =
      let same = wake_at-awake i h.pool.workers e.1 in
      record {
        still = (e.0, ap all_awake same ∙ e.1);
        refuses = refl;
        descends = inl (omega (arith, ap weights same));
      }
  step-Ends h notifies_all e = record {
    still = (e.0, notify_all-all_awake h.pool.workers);
    refuses = refl;
    descends = inl (omega (arith, notify_all-weights h.pool.workers));
  }
  step-Ends h (works i) e =
      let r = turn_at i h.pool.workers h.pool.shared in
      let g : History T = record h { pool = record { shared = r.1; workers = r.0 } } in
      let d = turn_at-Descends i h.pool.workers h.pool.shared e.0 e.1 in
      record {
        still = rw (note-workers r.2 g) (d.still, d.awake);
        refuses = note-accepted r.2 g;
        descends = rw (note-workers r.2 g) (ground (arith, d.falls));
      }

  -- The events, none of which is the step of a worker that has none to make.
  abbrev pub Effective : History T → List (Event T) → Type 0
  Effective h [] = Unit
  Effective h (e ∷ es) = (is_idle e h ≡ false) × Effective (step h e) es

  abbrev pub steps : List (Event T) → ℕ
  steps [] = 0
  steps (e ∷ es) = working e + steps es

  run-measure :
      (h : History T) (es : List (Event T))
      → IsEnding h
      → Effective h es
      → (measure (run h es).pool.workers (run h es).pool.shared + steps es
          ≤ measure h.pool.workers h.pool.shared)
        × ((run h es).accepted ≡ h.accepted)
        × IsEnding (run h es)
  unfolding run
  run-measure h [] e f = (omega arith, refl, e)
  run-measure h (x ∷ es) e f =
      let d = step-Ends h x e in
      let (bound, same, still) = run-measure (step h x) es d.still f.1 in
      (ground (arith, d.descends, f.0, bound), same ∙ d.refuses, still)

  -- After the critical section and the `notify_all` of `stop`, whatever the threads do: no task is
  -- accepted any more; the workers make at most as many steps as `measure` counts, which is one for
  -- each worker that is to look at the queue and two for each running one and each task in the
  -- queue; and unless all workers have returned, one of them is awake and has a step to make.
  pub notify_all-ends :
      (h : History T) (es : List (Event T))
      → h.pool.shared.stopping ≡ true
      → Effective (step h notifies_all) es
      → let g = run h (notifies_all ∷ es) in
        (g.accepted ≡ h.accepted)
        × (steps es ≤ measure h.pool.workers h.pool.shared)
        × ((all_exited g.pool.workers ≡ true) ⊎ ((i : ℕ) × (can_step i g.pool.workers ≡ true)))
  unfolding run step
  notify_all-ends h es e f =
      let (bound, same, still) =
        run-measure (step h notifies_all) es (e, notify_all-all_awake h.pool.workers) f in
      (
        same,
        omega (arith, bound, notify_all-weights h.pool.workers),
        any_alive (run (step h notifies_all) es).pool.workers still.1,
      )
