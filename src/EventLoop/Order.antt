-- ===== src/EventLoop/Order.antt =====
-- The functors of src/reactor/EventLoop.cpp, from `queueInLoop` to their calls.
use lmonitor.Base.{
  ℕ, zero, suc, ◌≡◌, refl, sym, ap, ◌∙◌, Bool, true, false, List, [], ◌∷◌, ◌++◌, none, some, arith,
  append-nil, append_assoc,
}
use lmonitor.EventLoop.{
  Point, outside, checking, polling, reading, swapping, running, EventLoop, Action, queues, quits,
  writes, enters, checks, swaps, runs, polls, reads, throws, Answer, done, interrupted, would_block,
  failed, Poll, poll_interrupted, poll_failed, woken, others, threw, create, wakeup, handle_wakeup,
  poll, enter, check, turn, run,
}

-- The functors that a schedule queues, in order.
abbrev pub queued_by : {A : Type 0} → Action A → List A
queued_by (queues (some f)) = f ∷ []
queued_by _ = []

abbrev pub queued : {A : Type 0} → List (Action A) → List A
queued [] = []
queued (a ∷ actions) = queued_by a ++ queued actions

-- The functors that the loop has taken and not yet called.
abbrev pub taken : {A : Type 0} → Point A → List A
taken (running fs) = fs
taken outside = []
taken checking = []
taken polling = []
taken reading = []
taken swapping = []

abbrev pub is_inside : {A : Type 0} → Point A → Bool
is_inside outside = false
is_inside _ = true

-- `looping_` says whether a thread is inside `loop`.
abbrev pub IsMarked : {A : Type 0} → EventLoop A → Type 0
IsMarked s = s.looping ≡ is_inside s.point

-- All functors that were queued, in order.
abbrev pub all_of : {A : Type 0} → EventLoop A → List A
all_of s = s.called ++ (taken s.point ++ s.pending)

module _ {A : Type 0} where
  queues-all : (s : EventLoop A) (f : A) → all_of (turn (queues (some f)) s) ≡ all_of s ++ f ∷ []
  unfolding turn
  queues-all s f = ground (
    arith,
    append_assoc s.called (taken s.point ++ s.pending) (f ∷ []),
    append_assoc (taken s.point) s.pending (f ∷ []),
  )

  wakeup-all : (a : Answer) (n : ℕ) (s : EventLoop A) → all_of (wakeup a n s) ≡ all_of s
  unfolding wakeup
  wakeup-all a zero s = refl
  wakeup-all done (suc n) s = refl
  wakeup-all interrupted (suc n) s = refl
  wakeup-all would_block (suc n) s = refl
  wakeup-all failed (suc n) s = refl

  poll-all :
      (q : Poll) (s : EventLoop A)
      → all_of (poll q (record s { point = polling })) ≡ all_of (record s { point = polling })
  unfolding poll
  poll-all poll_interrupted s = refl
  poll-all poll_failed s = refl
  poll-all threw s = refl
  poll-all woken s = refl
  poll-all others s = refl

  read-all :
      (a : Answer) (s : EventLoop A)
      → all_of (handle_wakeup a (record s { point = reading }))
        ≡ all_of (record s { point = reading })
  unfolding handle_wakeup
  read-all done s = refl
  read-all interrupted s = refl
  read-all would_block s = refl
  read-all failed s = refl

  enter-all :
      (p : Point A) (s : EventLoop A)
      → s.looping ≡ is_inside p
      → all_of (enter (record s { point = p })) ≡ all_of (record s { point = p })
  unfolding enter
  enter-all outside s m = ground arith
  enter-all (running fs) s m = ground arith
  enter-all _ s m = ground arith

  check-all :
      (s : EventLoop A)
      → all_of (check (record s { point = checking })) ≡ all_of (record s { point = checking })
  unfolding check
  check-all s = ground arith

  -- The steps that queue nothing, at each point of the loop.
  turn-all :
      (a : Action A) (p : Point A) (s : EventLoop A)
      → queued_by a ≡ []
      → s.looping ≡ is_inside p
      → all_of (turn a (record s { point = p })) ≡ all_of (record s { point = p })
  unfolding turn
  turn-all (queues none) p s q m = refl
  turn-all (queues (some f)) p s q m = cc
  turn-all quits p s q m = refl
  turn-all (writes a) p s q m = wakeup-all a s.writers (record s { point = p })
  turn-all enters p s q m = enter-all p s m
  turn-all checks checking s q m = check-all s
  turn-all checks p s q m = refl
  turn-all swaps swapping s q m = ap (λ fs. s.called ++ fs) (append-nil s.pending)
  turn-all swaps p s q m = refl
  turn-all runs (running []) s q m = refl
  turn-all runs (running (f ∷ fs)) s q m = append_assoc s.called (f ∷ []) (fs ++ s.pending)
  turn-all runs p s q m = refl
  turn-all (polls r) polling s q m = poll-all r s
  turn-all (polls r) p s q m = refl
  turn-all (reads a) reading s q m = read-all a s
  turn-all (reads a) p s q m = refl
  turn-all throws swapping s q m = refl
  turn-all throws p s q m = refl

  wakeup-IsMarked : (a : Answer) (n : ℕ) (s : EventLoop A) → IsMarked s → IsMarked (wakeup a n s)
  unfolding wakeup
  wakeup-IsMarked a zero s m = m
  wakeup-IsMarked done (suc n) s m = m
  wakeup-IsMarked interrupted (suc n) s m = m
  wakeup-IsMarked would_block (suc n) s m = m
  wakeup-IsMarked failed (suc n) s m = m

  poll-IsMarked :
      (q : Poll) (s : EventLoop A)
      → s.looping ≡ true
      → IsMarked (poll q (record s { point = polling }))
  unfolding poll
  poll-IsMarked poll_interrupted s m = m
  poll-IsMarked poll_failed s m = refl
  poll-IsMarked threw s m = refl
  poll-IsMarked woken s m = m
  poll-IsMarked others s m = m

  read-IsMarked :
      (a : Answer) (s : EventLoop A)
      → s.looping ≡ true
      → IsMarked (handle_wakeup a (record s { point = reading }))
  unfolding handle_wakeup
  read-IsMarked done s m = m
  read-IsMarked interrupted s m = m
  read-IsMarked would_block s m = m
  read-IsMarked failed s m = m

  enter-IsMarked : (s : EventLoop A) → IsMarked s → IsMarked (enter s)
  unfolding enter
  enter-IsMarked s m = ground arith

  check-IsMarked :
      (s : EventLoop A) → s.looping ≡ true → IsMarked (check (record s { point = checking }))
  unfolding check
  check-IsMarked s m = ground arith

  pub turn-IsMarked :
      (a : Action A) (p : Point A) (s : EventLoop A)
      → s.looping ≡ is_inside p
      → IsMarked (turn a (record s { point = p }))
  unfolding turn
  turn-IsMarked (queues none) p s m = m
  turn-IsMarked (queues (some f)) p s m = m
  turn-IsMarked quits p s m = m
  turn-IsMarked (writes a) p s m = wakeup-IsMarked a s.writers (record s { point = p }) m
  turn-IsMarked enters p s m = enter-IsMarked (record s { point = p }) m
  turn-IsMarked checks checking s m = check-IsMarked s m
  turn-IsMarked checks p s m = m
  turn-IsMarked swaps swapping s m = m
  turn-IsMarked swaps p s m = m
  turn-IsMarked runs (running []) s m = m
  turn-IsMarked runs (running (f ∷ fs)) s m = m
  turn-IsMarked runs p s m = m
  turn-IsMarked (polls r) polling s m = poll-IsMarked r s m
  turn-IsMarked (polls r) p s m = m
  turn-IsMarked (reads a) reading s m = read-IsMarked a s m
  turn-IsMarked (reads a) p s m = m
  turn-IsMarked throws swapping s m = refl
  turn-IsMarked throws p s m = m

  -- A step adds what it queues, and only that, at the end.
  turn-queued :
      (a : Action A) (s : EventLoop A) → IsMarked s → all_of (turn a s) ≡ all_of s ++ queued_by a
  turn-queued (queues (some f)) s m = queues-all s f
  turn-queued a s m = turn-all a s.point s refl m ∙ sym (append-nil (all_of s))

  run-queued :
      (actions : List (Action A)) (s : EventLoop A)
      → IsMarked s
      → all_of (run s actions) ≡ all_of s ++ queued actions
  unfolding run
  run-queued [] s m = sym (append-nil (all_of s))
  run-queued (a ∷ actions) s m =
      run-queued actions (turn a s) (turn-IsMarked a s.point s m)
      ∙ ap (λ fs. fs ++ queued actions) (turn-queued a s m)
      ∙ append_assoc (all_of s) (queued_by a) (queued actions)

  -- In every interleaving of the loop with the threads that call `queueInLoop` and `quit`, whatever
  -- the kernel answers: the functors that were queued are those that were called, then those that
  -- the loop has taken, then those that wait, each once and in the order of the calls.
  pub run-called :
      (actions : List (Action A))
      → let s = run create actions in s.called ++ (taken s.point ++ s.pending) ≡ queued actions
  run-called actions = run-queued actions create refl
