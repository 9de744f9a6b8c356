-- ===== src/ThreadPool/Queue.antt =====
-- The queue and the workers of src/thread/ThreadPool.cpp, through the interleaved steps of all threads.
use lmonitor.Base.{
  ℕ, ◌+◌, ◌≤◌, ◌≡◌, refl, sym, ap, ◌∙◌, subst, true, false, List, [], ◌∷◌, ◌++◌, Option, none, some,
  ok, arith, length, length-append, append_assoc,
}
use lmonitor.ThreadPool.{
  Worker, waiting, notify_all, wake_at, Shared, ThreadPool, Happening, nothing, took, ended, create,
  try_submit, begin_stop, turn_at, Event, submits, stops, notifies_one, notifies_all, works,
  History, note, step, run, fresh, replicate,
}
use lmonitor.ThreadPool.Turns.{
  running_count, has_exited, none_runs, none_exited, IsTurn, turn_at-IsTurn, wake_at-counts,
  notify_all-counts,
}

module _ {T : Type 0} where
  -- The queue is within the limit m; the accepted tasks are those that were taken, in order, and
  -- behind them those in the queue; as many were taken as have ended or are in a worker; and once a
  -- worker has returned the pool is stopping with an empty queue.
  pub record IsSound (m : ℕ) (h : History T) : Type 0 where
    pub limit : h.pool.shared.max_queue_size ≡ m
    pub bounded : length h.pool.shared.tasks ≤ m
    pub in_order : h.accepted ≡ h.started ++ h.pool.shared.tasks
    pub counted : length h.started ≡ length h.finished + running_count h.pool.workers
    pub drained :
        has_exited h.pool.workers ≡ true
        → (h.pool.shared.stopping ≡ true) × (h.pool.shared.tasks ≡ [])

  submit-IsSound :
      (m : ℕ) (t : Option T) (h : History T) → IsSound m h → IsSound m (step h (submits t))
  unfolding step try_submit
  submit-IsSound m none h v = v
  submit-IsSound m (some t) h v = record {
    limit = ground (arith, v.limit);
    bounded = ground (arith, v.limit, v.bounded, length-append {0} h.pool.shared.tasks (t ∷ []));
    in_order = ground (arith, v.in_order, append_assoc h.started h.pool.shared.tasks (t ∷ []));
    counted = ground (arith, v.counted);
    drained = λ e. let d = v.drained e in ground (arith, d);
  }

  stop-IsSound : (m : ℕ) (h : History T) → IsSound m h → IsSound m (step h stops)
  unfolding step begin_stop
  stop-IsSound m h v = record {
    limit = v.limit;
    bounded = v.bounded;
    in_order = v.in_order;
    counted = v.counted;
    drained = λ e. (refl, (v.drained e).1);
  }

  notify-IsSound :
      (m : ℕ) (h : History T) (ws : List (Worker T))
      → (running_count ws ≡ running_count h.pool.workers)
        × (has_exited ws ≡ has_exited h.pool.workers)
      → IsSound m h
      → IsSound m (record h { pool = record { shared = h.pool.shared; workers = ws } })
  notify-IsSound m h ws c v = record {
    limit = v.limit;
    bounded = v.bounded;
    in_order = v.in_order;
    counted = rw c.0 v.counted;
    drained = λ e. v.drained (sym c.1 ∙ e);
  }

  work-IsSound :
      (m : ℕ) (h : History T) (ws : List (Worker T)) (s : Shared T) (did : Happening T)
      → IsTurn h.pool.workers h.pool.shared ws s did
      → IsSound m h
      → IsSound m (note did (record h { pool = record { shared = s; workers = ws } }))
  work-IsSound m h ws s nothing t v = record {
    limit = rw t.moves v.limit;
    bounded = rw t.moves v.bounded;
    in_order = rw t.moves v.in_order;
    counted = rw t.counts v.counted;
    drained = ground (arith, t.exits, t.moves, v.drained);
  }
  work-IsSound m h ws s (took task) t v = record {
    limit = t.moves.1 ∙ v.limit;
    bounded = ground (arith, v.bounded, t.moves);
    in_order =
        v.in_order
        ∙ ap (λ ts. h.started ++ ts) t.moves.0
        ∙ sym (append_assoc h.started (task ∷ []) s.tasks);
    counted = ground (arith, v.counted, t.counts, length-append {0} h.started (task ∷ []));
    drained = ground (arith, t.exits, t.moves, v.drained);
  }
  work-IsSound m h ws s (ended task) t v = record {
    limit = rw t.moves v.limit;
    bounded = rw t.moves v.bounded;
    in_order = rw t.moves v.in_order;
    counted = ground (arith, v.counted, t.counts, length-append {0} h.finished (task ∷ []));
    drained = ground (arith, t.exits, t.moves, v.drained);
  }

  step-IsSound : (m : ℕ) (h : History T) (e : Event T) → IsSound m h → IsSound m (step h e)
  unfolding step
  step-IsSound m h (submits t) v = submit-IsSound m t h v
  step-IsSound m h stops v = stop-IsSound m h v
  step-IsSound m h (notifies_one i) v =
      notify-IsSound m h (wake_at i h.pool.workers) (wake_at-counts i h.pool.workers) v
  step-IsSound m h notifies_all v =
      notify-IsSound m h (notify_all h.pool.workers) (notify_all-counts h.pool.workers) v
  step-IsSound m h (works i) v =
      let r = turn_at i h.pool.workers h.pool.shared in
      work-IsSound m h r.0 r.1 r.2 (turn_at-IsTurn i h.pool.workers h.pool.shared) v

  pub run-IsSound :
      (m : ℕ) (h : History T) (es : List (Event T)) → IsSound m h → IsSound m (run h es)
  unfolding run
  run-IsSound m h [] v = v
  run-IsSound m h (e ∷ es) v = run-IsSound m (step h e) es (step-IsSound m h e v)

  -- The pool that a successful constructor makes.
  abbrev built : ℕ → ℕ → ThreadPool T
  built n m = record {
    shared = record { max_queue_size = m; tasks = []; stopping = false };
    workers = replicate n waiting;
  }

  create_lem : (n m : ℕ) (p : ThreadPool T) → create n m ≡ ok p → p ≡ built n m
  unfolding create
  create_lem n m p e = ground arith

  built-IsSound : (n m : ℕ) → IsSound m (fresh (built n m))
  built-IsSound n m = record {
    limit = refl;
    bounded = omega arith;
    in_order = refl;
    counted = rw (none_runs T n) refl;
    drained = λ h. ground (arith, none_exited T n);
  }

  create-IsSound : (n m : ℕ) (p : ThreadPool T) → create n m ≡ ok p → IsSound m (fresh p)
  create-IsSound n m p e =
      subst (λ p. IsSound m (fresh p)) (sym (create_lem n m p e)) (built-IsSound n m)

  -- Whatever the threads do with a new pool of n workers and limit m, in any interleaving: the
  -- queue is never longer than m; the accepted tasks are those that the workers took, in the order
  -- in which they took them, and behind them those in the queue; as many tasks were taken as have
  -- ended or are running; and when a worker has returned, the pool is stopping and the queue is empty.
  pub run-create :
      (n m : ℕ) (p : ThreadPool T) (es : List (Event T))
      → create n m ≡ ok p
      → IsSound m (run (fresh p) es)
  run-create n m p es e = run-IsSound m (fresh p) es (create-IsSound n m p e)
