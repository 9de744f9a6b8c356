-- ===== src/EventLoop.antt =====
-- include/reactor/EventLoop.h and src/reactor/EventLoop.cpp: the pending functors, the eventfd that
-- wakes the loop, and `loop`. One thread runs the loop; any thread may call `queueInLoop` and `quit`.
-- An action is one step of one thread, with what the kernel answered.
pub mod Order
pub mod Wakeup
pub mod Round
pub mod Channels
pub mod Descriptors
mod Tests
use lmonitor.Base.{
  ℕ, zero, suc, ◌+◌, ◌-◌, Bool, true, false, List, [], ◌∷◌, ◌++◌, Option, none, some, if◌then◌else◌,
}

-- Where the thread of the loop is: outside `loop`, before the test of its condition, in `epoll_wait`,
-- in the `read` of `handleWakeup`, before the lock of `doPendingFunctors`, or at its functors.
pub data Point (A : Type 0) : Type 0 where
  outside checking polling reading swapping : Point A
  running : List A → Point A

pub record EventLoop (A : Type 0) : Type 0 where
  pub looping : Bool
  pub quit : Bool
  pub pending : List A
  pub point : Point A
  -- The threads inside `wakeup`.
  pub writers : ℕ
  -- The counter of the eventfd.
  pub counter : ℕ
  -- The functors that were called.
  pub called : List A

-- Answers of `write` and `read` on the eventfd.
pub data Answer : Type 0 where
  done interrupted would_block failed : Answer

-- What `epoll_wait` gave: EINTR, another error, events with the wakeup channel's or without it, or
-- events of which a callback threw before the wakeup channel's turn, or without one. At `swapping` the
-- events behind that turn are still to be dispatched.
pub data Poll : Type 0 where
  poll_interrupted poll_failed woken others threw : Poll

pub data Action (A : Type 0) : Type 0 where
  -- `queueInLoop` up to `wakeup`; an empty functor is `none`.
  queues : Option A → Action A
  -- `quit` up to `wakeup`.
  quits : Action A
  -- A `write` in `wakeup`.
  writes : Answer → Action A
  -- A call of `loop`.
  enters : Action A
  checks swaps runs : Action A
  polls : Poll → Action A
  reads : Answer → Action A
  -- A callback of another channel throws behind the wakeup channel's turn.
  throws : Action A

abbrev pub create : {A : Type 0} → EventLoop A
create = record {
  looping = false;
  quit = false;
  pending = [];
  point = outside;
  writers = 0;
  counter = 0;
  called = [];
}

module _ {A : Type 0} where
  unfoldable pub queue_in_loop : Option A → EventLoop A → EventLoop A
  queue_in_loop none s = s
  queue_in_loop (some f) s = record s { pending = s.pending ++ f ∷ []; writers = suc s.writers }

  unfoldable pub quit_loop : EventLoop A → EventLoop A
  quit_loop s = record s { quit = true; writers = suc s.writers }

  -- `wakeup`, by one of the threads inside, if there is one.
  unfoldable pub wakeup : Answer → ℕ → EventLoop A → EventLoop A
  wakeup a zero s = s
  wakeup done (suc n) s = record s { writers = n; counter = suc s.counter }
  wakeup interrupted (suc n) s = s
  wakeup would_block (suc n) s = record s { writers = n }
  wakeup failed (suc n) s = record s { writers = n }

  unfoldable pub handle_wakeup : Answer → EventLoop A → EventLoop A
  handle_wakeup done s = record s { point = swapping; counter = 0 }
  handle_wakeup interrupted s = s
  handle_wakeup would_block s = record s { point = swapping }
  handle_wakeup failed s = record s { point = swapping }

  -- `epoll_wait` with the dispatch of what it gave; an exception leaves `loop`.
  unfoldable pub poll : Poll → EventLoop A → EventLoop A
  poll poll_interrupted s = s
  poll poll_failed s = record s { point = outside; looping = false }
  poll threw s = record s { point = outside; looping = false }
  poll woken s = record s { point = reading }
  poll others s = record s { point = swapping }

  -- The start of `loop`, which throws if it runs already.
  unfoldable pub enter : EventLoop A → EventLoop A
  enter s = if s.looping then s else record s { looping = true; quit = false; point = checking }

  -- `while (!quit_.load())`
  unfoldable pub check : EventLoop A → EventLoop A
  check s =
      if s.quit then record s { point = outside; looping = false } else record s { point = polling }

  -- `functors.swap(pendingFunctors_)`
  abbrev pub swap : EventLoop A → EventLoop A
  swap s = record s { point = running s.pending; pending = [] }

  -- An exception that leaves `loop` before `doPendingFunctors`.
  abbrev pub leave : EventLoop A → EventLoop A
  leave s = record s { point = outside; looping = false }

  -- The next functor of `doPendingFunctors`, whose exceptions are caught; or its end.
  abbrev pub run_functor : List A → EventLoop A → EventLoop A
  run_functor [] s = record s { point = checking }
  run_functor (f ∷ fs) s = record s { point = running fs; called = s.called ++ f ∷ [] }

  -- One action. The loop's thread makes only the step of the point that it is at.
  unfoldable pub turn : Action A → EventLoop A → EventLoop A
  unfolding queue_in_loop quit_loop wakeup handle_wakeup poll enter check
  turn (queues f) s = queue_in_loop f s
  turn quits s = quit_loop s
  turn (writes a) s = wakeup a s.writers s
  turn enters s = enter s
  turn checks s = elim s.point [ checking ↦ check s | _ ↦ s ]
  turn swaps s = elim s.point [ swapping ↦ swap s | _ ↦ s ]
  turn runs s = elim s.point [ running fs ↦ run_functor fs s | _ ↦ s ]
  turn (polls p) s = elim s.point [ polling ↦ poll p s | _ ↦ s ]
  turn (reads a) s = elim s.point [ reading ↦ handle_wakeup a s | _ ↦ s ]
  turn throws s = elim s.point [ swapping ↦ leave s | _ ↦ s ]

  unfoldable pub run : EventLoop A → List (Action A) → EventLoop A
  run s [] = s
  run s (a ∷ actions) = run (turn a s) actions
