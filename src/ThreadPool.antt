-- ===== src/ThreadPool.antt =====
-- include/thread/ThreadPool.h and src/thread/ThreadPool.cpp. Threads are interleavings: a step is one
-- critical section of `trySubmit`, of `stop` or of a worker, a notification, or the end of the task
-- that a worker runs. A task that throws ends like any other, since `workerLoop` catches everything.
pub mod Turns
pub mod Queue
pub mod Shutdown
pub mod Awake
pub mod Ending
mod Tests
use lmonitor.Base.{
  ℕ, zero, suc, Bool, true, false, not, ◌&&◌, ◌||◌, List, [], ◌∷◌, ◌++◌, Option, none, some, Result,
  ok, err, leb, ◌==◌, if◌then◌else◌, length, is_empty,
}

-- Where a worker thread is: about to look at the queue, in `condition_.wait` or before it; asleep
-- in `condition_.wait`; in a task; or behind `return`.
pub data Worker (T : Type 0) : Type 0 where
  waiting : Worker T
  asleep : Worker T
  running : T → Worker T
  exited : Worker T

-- The fields that the mutex protects.
pub record Shared (T : Type 0) : Type 0 where
  pub max_queue_size : ℕ
  pub tasks : List T
  pub stopping : Bool

pub record ThreadPool (T : Type 0) : Type 0 where
  pub shared : Shared T
  pub workers : List (Worker T)

-- std::invalid_argument of the constructor
pub data PoolError : Type 0 where
  no_threads no_queue : PoolError

-- What a worker's step did.
pub data Happening (T : Type 0) : Type 0 where
  nothing : Happening T
  took : T → Happening T
  ended : T → Happening T

-- A step of a worker: the worker and the shared fields after it.
pub record Turn (T : Type 0) : Type 0 where
  pub worker : Worker T
  pub after : Shared T
  pub did : Happening T

abbrev pub replicate {ℓ} : {A : Type ℓ} → ℕ → A → List A
replicate zero a = []
replicate (suc n) a = a ∷ replicate n a

module _ {T : Type 0} where
  -- The constructor, where every thread starts.
  unfoldable pub create : ℕ → ℕ → Result PoolError (ThreadPool T)
  create thread_count max_queue_size =
      if thread_count == 0
      then err no_threads
      else if max_queue_size == 0
      then err no_queue
      else ok (record {
        shared = record { max_queue_size = max_queue_size; tasks = []; stopping = false };
        workers = replicate thread_count Worker.waiting;
      })

  -- `none` is an empty std::function.
  unfoldable pub try_submit : Option T → Shared T → Shared T × Bool
  try_submit none s = (s, false)
  try_submit (some task) s =
      if s.stopping
      then (s, false)
      else if leb s.max_queue_size (length s.tasks)
      then (s, false)
      else (record s { tasks = s.tasks ++ task ∷ [] }, true)

  -- The critical section of `stop`; `notify_all` and the joins come behind it.
  unfoldable pub begin_stop : Shared T → Shared T
  begin_stop s = record s { stopping = true }

  -- A waiting worker on the queue: it falls asleep, returns, or takes the first task.
  abbrev wake : List T → Shared T → Turn T
  wake [] s = record {
    worker = if s.stopping then Worker.exited else Worker.asleep;
    after = s;
    did = Happening.nothing;
  }
  wake (task ∷ rest) s = record {
    worker = Worker.running task;
    after = record s { tasks = rest };
    did = Happening.took task;
  }

  -- The next step of `workerLoop`.
  unfoldable pub turn : Worker T → Shared T → Turn T
  turn Worker.waiting s = wake s.tasks s
  turn (Worker.running task) s = record {
    worker = Worker.waiting;
    after = s;
    did = Happening.ended task;
  }
  turn Worker.asleep s = record { worker = Worker.asleep; after = s; did = Happening.nothing }
  turn Worker.exited s = record { worker = Worker.exited; after = s; did = Happening.nothing }

  -- The step of the worker at an index; there is no step behind the last worker.
  unfoldable pub turn_at : ℕ → List (Worker T) → Shared T → List (Worker T) × Shared T × Happening T
  turn_at i [] s = ([], s, Happening.nothing)
  turn_at zero (w ∷ ws) s = let t = turn w s in (t.worker ∷ ws, t.after, t.did)
  turn_at (suc i) (w ∷ ws) s = let (ws', s', did) = turn_at i ws s in (w ∷ ws', s', did)

-- A thread asleep on the condition variable goes on to look at the queue; no other is touched.
abbrev pub woken : {T : Type 0} → Worker T → Worker T
woken Worker.asleep = Worker.waiting
woken Worker.waiting = Worker.waiting
woken (Worker.running task) = Worker.running task
woken Worker.exited = Worker.exited

module _ {T : Type 0} where
  -- `notify_all` of `stop`
  unfoldable pub notify_all : List (Worker T) → List (Worker T)
  notify_all [] = []
  notify_all (w ∷ ws) = woken w ∷ notify_all ws

  -- `notify_one` of `trySubmit`, for the worker that it wakes; and what a spurious wake-up does.
  unfoldable pub wake_at : ℕ → List (Worker T) → List (Worker T)
  wake_at i [] = []
  wake_at zero (w ∷ ws) = woken w ∷ ws
  wake_at (suc i) (w ∷ ws) = w ∷ wake_at i ws

-- The steps of the threads that use the pool: the critical sections of `trySubmit` and `stop`, the
-- notifications behind them, and the steps of the workers. A spurious wake-up is `notifies_one` too.
pub data Event (T : Type 0) : Type 0 where
  submits : Option T → Event T
  stops : Event T
  notifies_one : ℕ → Event T
  notifies_all : Event T
  works : ℕ → Event T

-- A pool with its past: the tasks that were accepted, that workers have taken, and that have ended,
-- each in order.
pub record History (T : Type 0) : Type 0 where
  pub pool : ThreadPool T
  pub accepted : List T
  pub started : List T
  pub finished : List T

module _ {T : Type 0} where
  abbrev note : Happening T → History T → History T
  note Happening.nothing h = h
  note (Happening.took task) h = record h { started = h.started ++ task ∷ [] }
  note (Happening.ended task) h = record h { finished = h.finished ++ task ∷ [] }

  abbrev note_submit : Option T → Bool → List T → List T
  note_submit (some task) true xs = xs ++ task ∷ []
  note_submit _ _ xs = xs

  unfoldable pub step : History T → Event T → History T
  unfolding try_submit begin_stop notify_all wake_at
  step h (submits task) =
      let (s, is_accepted) = try_submit task h.pool.shared in
      record h {
        pool = record { shared = s; workers = h.pool.workers };
        accepted = note_submit task is_accepted h.accepted;
      }
  step h stops = record h {
    pool = record { shared = begin_stop h.pool.shared; workers = h.pool.workers };
  }
  step h (notifies_one i) = record h {
    pool = record { shared = h.pool.shared; workers = wake_at i h.pool.workers };
  }
  step h notifies_all = record h {
    pool = record { shared = h.pool.shared; workers = notify_all h.pool.workers };
  }
  step h (works i) =
      let (ws, s, did) = turn_at i h.pool.workers h.pool.shared in
      note did (record h { pool = record { shared = s; workers = ws } })

  unfoldable pub run : History T → List (Event T) → History T
  run h [] = h
  run h (e ∷ es) = run (step h e) es

  abbrev pub fresh : ThreadPool T → History T
  fresh p = record { pool = p; accepted = []; started = []; finished = [] }
