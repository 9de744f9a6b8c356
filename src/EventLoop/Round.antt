-- ===== src/EventLoop/Round.antt =====
-- One round of `loopOnce`, src/reactor/EventLoop.cpp, with no other thread beside it.
use lmonitor.Base.{
  ℕ, zero, suc, ◌≡◌, sym, ap, ◌∙◌, List, [], ◌∷◌, ◌++◌, length, append-nil, append_assoc,
}
use lmonitor.EventLoop.{
  polling, running, checking, EventLoop, Action, runs, swaps, polls, reads, done, woken, turn, run,
}

abbrev repeat : {A : Type 0} → ℕ → Action A → List (Action A)
repeat zero a = []
repeat (suc n) a = a ∷ repeat n a

-- A round that the eventfd began, with `n` functors.
abbrev pub round : {A : Type 0} → ℕ → List (Action A)
round n = polls woken ∷ reads done ∷ swaps ∷ repeat (suc n) runs

module _ {A : Type 0} where
  run-running :
      (fs : List A) (s : EventLoop A)
      → run (record s { point = running fs }) (repeat (suc (length fs)) runs)
        ≡ record s { point = checking; called = s.called ++ fs }
  unfolding run turn
  run-running [] s = ap (λ c. record s { point = checking; called = c }) (sym (append-nil s.called))
  run-running (f ∷ fs) s =
      run-running fs (record s { called = s.called ++ f ∷ [] })
      ∙ ap (λ c. record s { point = checking; called = c }) (append_assoc s.called (f ∷ []) fs)

  -- When `epoll_wait` reports the eventfd, the round calls every functor that waits, in order,
  -- resets the counter, and comes back to the test of the loop.
  pub run-round :
      (s : EventLoop A)
      → s.point ≡ polling
      → run s (round (length s.pending))
        ≡ record s { point = checking; pending = []; counter = 0; called = s.called ++ s.pending }
  unfolding run turn
  run-round s e = rw (e, turn) (run-running s.pending (record s { pending = []; counter = 0 }))
