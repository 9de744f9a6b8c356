-- ===== src/ThreadPool/Tests.antt =====
-- A pool of two workers at work, and the theorems about it.
use Prim.{tt}
use lmonitor.Base.{ℕ, List, [], ◌∷◌, ◌++◌, ◌≡◌, refl, true, false, none, some, err, ◌≤◌, ◌⊎◌}
use lmonitor.ThreadPool.{
  waiting, asleep, running, notify_all, wake_at, notifies_one, notifies_all, ThreadPool, Event,
  submits, stops, works, History, create, try_submit, begin_stop, turn, turn_at, step, run, fresh,
  no_threads, no_queue,
}
use lmonitor.ThreadPool.Queue.{IsSound, run-create}
use lmonitor.ThreadPool.Shutdown.{IsDrained, run-IsDrained, all_exited}
use lmonitor.ThreadPool.Awake.{can_step, measure}
use lmonitor.ThreadPool.Ending.{steps, notify_all-ends}

abbrev two_workers : ThreadPool ℕ
two_workers = record {
  shared = record { max_queue_size = 2; tasks = []; stopping = false };
  workers = waiting ∷ waiting ∷ [];
}

-- Three tasks are submitted before a worker wakes, of which the third is refused; the last task is
-- submitted behind `stop`.
abbrev busy : List (Event ℕ)
busy =
    submits (some 10)
    ∷ submits (some 11)
    ∷ submits (some 12)
    ∷ submits none
    ∷ works 0
    ∷ works 1
    ∷ submits (some 13)
    ∷ works 1
    ∷ stops
    ∷ submits (some 14)
    ∷ []

abbrev ending : List (Event ℕ)
ending = works 1 ∷ works 1 ∷ works 0 ∷ works 0 ∷ works 1 ∷ []

busy-accepts : (run (fresh two_workers) busy).accepted ≡ 10 ∷ 11 ∷ 13 ∷ []
unfolding run step try_submit begin_stop turn_at turn
busy-accepts = refl

ending-order : (run (fresh two_workers) (busy ++ ending)).finished ≡ 11 ∷ 13 ∷ 10 ∷ []
unfolding run step try_submit begin_stop turn_at turn
ending-order = refl

create-no_threads : create {T = ℕ} 0 5 ≡ err no_threads
unfolding create
create-no_threads = refl

create-no_queue : create {T = ℕ} 5 0 ≡ err no_queue
unfolding create
create-no_queue = refl

run-create_example : IsSound 2 (run (fresh two_workers) busy)
unfolding create
run-create_example = run-create 2 2 two_workers busy refl

run-IsDrained_example : IsDrained (run (fresh two_workers) (busy ++ ending))
unfolding create run step try_submit begin_stop turn_at turn
run-IsDrained_example = run-IsDrained 2 2 two_workers (busy ++ ending) refl refl

abbrev stopped : History ℕ
stopped = record {
  pool = record {
    shared = record { max_queue_size = 2; tasks = 13 ∷ []; stopping = true };
    workers = running 10 ∷ asleep ∷ [];
  };
  accepted = 10 ∷ 11 ∷ 13 ∷ [];
  started = 10 ∷ 11 ∷ [];
  finished = 11 ∷ [];
}

abbrev last : List (Event ℕ)
last = submits (some 15) ∷ works 1 ∷ works 1 ∷ notifies_one 1 ∷ works 0 ∷ works 0 ∷ works 1 ∷ []

notify_all-ends_example :
    let g = run stopped (notifies_all ∷ last) in
    (g.accepted ≡ stopped.accepted)
    × (steps last ≤ measure stopped.pool.workers stopped.pool.shared)
    × ((all_exited g.pool.workers ≡ true) ⊎ ((i : ℕ) × (can_step i g.pool.workers ≡ true)))
unfolding run step try_submit begin_stop turn_at turn notify_all wake_at
notify_all-ends_example =
    notify_all-ends stopped last refl (refl, (refl, (refl, (refl, (refl, (refl, (refl, tt)))))))
