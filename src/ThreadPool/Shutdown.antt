-- ===== src/ThreadPool/Shutdown.antt =====
-- The steps of a pool behind `ThreadPool::stop`, src/thread/ThreadPool.cpp.
use lmonitor.Base.{
  ℕ, zero, suc, ◌<◌, ◌≡◌, refl, sym, ap, ◌∙◌, Bool, true, false, List, [], ◌∷◌, ◌++◌, ok, arith,
  length, append-nil,
}
use lmonitor.ThreadPool.{
  Worker, waiting, asleep, notify_all, wake_at, notifies_one, notifies_all, running, exited, Shared,
  ThreadPool, Happening, nothing, took, ended, create, turn_at, Event, submits, stops, works,
  History, note, step, run, fresh,
}
use lmonitor.ThreadPool.Turns.{running_count, has_exited}
use lmonitor.ThreadPool.Queue.{IsSound, run-create}

module _ {T : Type 0} where
  -- Every worker has returned, as `stop` waits for by `join`.
  abbrev pub all_exited : List (Worker T) → Bool
  all_exited [] = true
  all_exited (exited ∷ ws) = all_exited ws
  all_exited (waiting ∷ ws) = false
  all_exited (asleep ∷ ws) = false
  all_exited (running t ∷ ws) = false

  none_left : (ws : List (Worker T)) → all_exited ws ≡ true → running_count ws ≡ 0
  none_left [] h = refl
  none_left (exited ∷ ws) h = none_left ws h
  none_left (waiting ∷ ws) h = cc
  none_left (asleep ∷ ws) h = cc
  none_left (running t ∷ ws) h = cc

  one_exited : (ws : List (Worker T)) → all_exited ws ≡ true → 0 < length ws → has_exited ws ≡ true
  one_exited [] h l = absurd (omega arith)
  one_exited (exited ∷ ws) h l = refl
  one_exited (waiting ∷ ws) h l = cc
  one_exited (asleep ∷ ws) h l = cc
  one_exited (running t ∷ ws) h l = cc

  -- The accepted tasks, taken in that order, and as many ended.
  pub record IsDrained (h : History T) : Type 0 where
    pub stopping : h.pool.shared.stopping ≡ true
    pub empty : h.pool.shared.tasks ≡ []
    pub in_order : h.started ≡ h.accepted
    pub all_ended : length h.finished ≡ length h.accepted

  IsSound-IsDrained :
      (m : ℕ) (h : History T)
      → IsSound m h
      → 0 < length h.pool.workers
      → all_exited h.pool.workers ≡ true
      → IsDrained h
  IsSound-IsDrained m h v l a =
      let d = v.drained (one_exited h.pool.workers a l) in
      let o : h.accepted ≡ h.started =
        v.in_order ∙ ap (λ ts. h.started ++ ts) d.1 ∙ append-nil h.started in
      record {
        stopping = d.0;
        empty = d.1;
        in_order = sym o;
        all_ended = omega (arith, v.counted, none_left h.pool.workers a, ap length o);
      }

  turn_at-length :
      (i : ℕ) (ws : List (Worker T)) (s : Shared T) → length (turn_at i ws s).0 ≡ length ws
  unfolding turn_at
  turn_at-length zero [] s = refl
  turn_at-length (suc i) [] s = refl
  turn_at-length zero (w ∷ ws) s = refl
  turn_at-length (suc i) (w ∷ ws) s = ap suc (turn_at-length i ws s)

  wake_at-length : (i : ℕ) (ws : List (Worker T)) → length (wake_at i ws) ≡ length ws
  unfolding wake_at
  wake_at-length zero [] = refl
  wake_at-length (suc i) [] = refl
  wake_at-length zero (w ∷ ws) = refl
  wake_at-length (suc i) (w ∷ ws) = ap suc (wake_at-length i ws)

  notify_all-length : (ws : List (Worker T)) → length (notify_all ws) ≡ length ws
  unfolding notify_all
  notify_all-length [] = refl
  notify_all-length (w ∷ ws) = ap suc (notify_all-length ws)

  pub note-workers : (d : Happening T) (h : History T) → (note d h).pool ≡ h.pool
  note-workers nothing h = refl
  note-workers (took t) h = refl
  note-workers (ended t) h = refl

  step-length :
      (h : History T) (e : Event T) → length (step h e).pool.workers ≡ length h.pool.workers
  unfolding step
  step-length h (submits t) = refl
  step-length h stops = refl
  step-length h (notifies_one i) = wake_at-length i h.pool.workers
  step-length h notifies_all = notify_all-length h.pool.workers
  step-length h (works i) =
      let r = turn_at i h.pool.workers h.pool.shared in
      ap (λ p. length p.workers)
        (note-workers r.2 (record h { pool = record { shared = r.1; workers = r.0 } }))
      ∙ turn_at-length i h.pool.workers h.pool.shared

  run-length :
      (h : History T) (es : List (Event T)) → length (run h es).pool.workers ≡ length h.pool.workers
  unfolding run
  run-length h [] = refl
  run-length h (e ∷ es) = run-length (step h e) es ∙ step-length h e

  length-create : (n m : ℕ) (p : ThreadPool T) → create n m ≡ ok p → 0 < length p.workers
  unfolding create
  length-create zero m p e = ground arith
  length-create (suc n) m p e = ground arith

  -- When `stop` has joined the threads of a pool, however they were interleaved, the queue is
  -- empty, the tasks that the pool ever accepted were taken in that order, and as many have ended.
  pub run-IsDrained :
      (n m : ℕ) (p : ThreadPool T) (es : List (Event T))
      → create n m ≡ ok p
      → all_exited (run (fresh p) es).pool.workers ≡ true
      → IsDrained (run (fresh p) es)
  run-IsDrained n m p es e a =
      IsSound-IsDrained m (run (fresh p) es) (run-create n m p es e)
        (rw (run-length (fresh p) es) (length-create n m p e)) a
