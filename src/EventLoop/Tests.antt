-- ===== src/EventLoop/Tests.antt =====
-- A loop at work, and the theorems about it at these inputs.
use lmonitor.Base.{ℕ, ◌≡◌, refl, List, [], ◌∷◌, ◌++◌, some}
use lmonitor.EventLoop.{
  Action, queues, quits, writes, enters, checks, swaps, runs, polls, reads, done, woken, polling,
  create, turn, run,
}
use lmonitor.EventLoop.Order.{queued, taken, run-called}

-- A functor is queued while the loop is about to wait for another event's sake, and its thread has
-- not written yet.
abbrev schedule : List (Action ℕ)
schedule =
    enters
    ∷ checks
    ∷ queues (some 1)
    ∷ writes done
    ∷ polls woken
    ∷ reads done
    ∷ swaps
    ∷ queues (some 2)
    ∷ runs
    ∷ runs
    ∷ checks
    ∷ []

run-called_example :
    let s = run create schedule in s.called ++ (taken s.point ++ s.pending) ≡ queued schedule
run-called_example = run-called schedule

-- A call of `quit` before `loop` is forgotten.
quit_before_loop : (run {A = ℕ} create (quits ∷ writes done ∷ enters ∷ checks ∷ [])).point ≡ polling
unfolding run turn
quit_before_loop = refl
