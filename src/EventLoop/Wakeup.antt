-- ===== src/EventLoop/Wakeup.antt =====
-- The eventfd of src/reactor/EventLoop.cpp: whether the loop can sleep while there is work.
use lmonitor.Base.{◌+◌, ◌||◌, ◌<◌, ◌≡◌, ◌≢◌, refl, Bool, true, false, List, [], ◌∷◌, arith, ◌⊎◌}
use lmonitor.EventLoop.{
  Point, outside, checking, polling, reading, swapping, running, EventLoop, Action, writes, enters,
  checks, throws, would_block, failed, enter, check, turn, run,
}

-- What eventfd(2) says of `write`: the only error beside EINTR is EAGAIN, with the counter at its
-- maximum, and so not zero.
abbrev pub IsEventfd : {A : Type 0} → Action A → EventLoop A → Type 0
IsEventfd (writes failed) s = ⊥
IsEventfd (writes would_block) s = 0 < s.counter
IsEventfd _ s = Unit

-- Every step of the schedule is one that eventfd(2) allows.
abbrev pub AreEventfd : {A : Type 0} → List (Action A) → EventLoop A → Type 0
AreEventfd [] s = Unit
AreEventfd (a ∷ actions) s = IsEventfd a s × AreEventfd actions (turn a s)

-- No callback throws behind the wakeup channel's turn.
abbrev pub Returns : {A : Type 0} → Action A → Type 0
Returns throws = ⊥
Returns _ = Unit

-- There is a functor to call, or the loop is to end.
abbrev pub HasWork : {A : Type 0} → EventLoop A → Type 0
HasWork s = (s.pending ≢ []) ⊎ (s.quit ≡ true)

-- `epoll_wait` is about to return, or a thread is about to wake it.
abbrev pub IsWoken : {A : Type 0} → EventLoop A → Type 0
IsWoken s = 0 < s.counter + s.writers

abbrev has_any : {A : Type 0} → List A → Bool
has_any [] = false
has_any (f ∷ fs) = true

-- Whether there must be a wake-up under way: not while the loop is about to take the functors.
abbrev needs : {A : Type 0} → Point A → List A → Bool → Bool
needs reading fs quit = false
needs swapping fs quit = false
needs polling fs quit = has_any fs || quit
needs outside fs quit = has_any fs
needs checking fs quit = has_any fs
needs (running gs) fs quit = has_any fs

abbrev IsServed : {A : Type 0} → EventLoop A → Type 0
IsServed s = needs s.point s.pending s.quit ≡ true → IsWoken s

module _ {A : Type 0} where
  -- With such a throw one is: the functors that wait at the next call of `loop` have no wake-up.
  lost_wakeup :
      (s : EventLoop A)
      → s.point ≡ swapping
      → s.writers ≡ 0
      → s.counter ≡ 0
      → let t = run s (throws ∷ enters ∷ checks ∷ []) in
        (t.point ≡ polling) × (t.pending ≡ s.pending) × ¬ IsWoken t
  unfolding run turn enter check
  lost_wakeup s at w c = rw at (refl, refl, λ k. omega (arith, w, c))
