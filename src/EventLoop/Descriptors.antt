-- ===== src/EventLoop/Descriptors.antt =====
-- The constructor and the destructor of src/reactor/EventLoop.cpp: the epoll instance and the eventfd,
-- with what the system calls answer.
use lmonitor.Base.{
  ℕ, ◌≡◌, Bool, true, false, List, [], ◌∷◌, ◌++◌, Option, none, some, Result, ok, err,
  if◌then◌else◌, ◌==◌, arith,
}
use lmonitor.Base.Number.{ℤ, pos, negsuc}
use lmonitor.EventLoop.Channels.{
  Control, ChannelError, Interest, Watched, add_channel, remove_channel,
}

pub data LoopError : Type 0 where
  bad_max_events no_epoll no_eventfd : LoopError
  not_registered : ChannelError → LoopError

pub record Answers : Type 0 where
  pub epoll : Option ℕ
  pub eventfd : Option ℕ
  pub registered : Control

pub record Descriptors : Type 0 where
  pub epoll_fd : ℕ
  pub wakeup_fd : ℕ

-- `maxEvents <= 0`
abbrev pub is_positive : ℤ → Bool
is_positive (pos n) = if n == 0 then false else true
is_positive (negsuc n) = false

abbrev pub wakeup_channel : ℕ → Watched
wakeup_channel fd = record { fd = fd; events = 1 }

-- The registration of the wake-up channel; its failure closes both descriptors.
abbrev register :
    Descriptors → Result ChannelError Interest → Result LoopError (Descriptors × Interest) × List ℕ
register d (ok interest) = (ok (d, interest), [])
register d (err e) = (err (not_registered e), d.wakeup_fd ∷ d.epoll_fd ∷ [])

abbrev with_eventfd : ℕ → Option ℕ → Control → Result LoopError (Descriptors × Interest) × List ℕ
with_eventfd epoll none answer = (err no_eventfd, epoll ∷ [])
with_eventfd epoll (some wakeup) answer =
    register (record { epoll_fd = epoll; wakeup_fd = wakeup })
      (add_channel answer (some (wakeup_channel wakeup)) [])

-- The loop's descriptors with what epoll watches, or the exception; and the descriptors closed.
unfoldable pub create : ℤ → Answers → Result LoopError (Descriptors × Interest) × List ℕ
create max_events a =
    if is_positive max_events
    then elim a.epoll [
      | none ↦ (err no_epoll, [])
      | some epoll ↦ with_eventfd epoll a.eventfd a.registered
    ]
    else (err bad_max_events, [])

abbrev kept : Interest → Result ChannelError Interest → Interest
kept s (ok t) = t
kept s (err e) = s

-- The destructor: what epoll still watched, and the descriptors closed.
unfoldable pub destroy : Control → Descriptors → Interest → Interest × List ℕ
destroy answer d s = (
  kept s (remove_channel answer (some (wakeup_channel d.wakeup_fd)) s),
  d.wakeup_fd ∷ d.epoll_fd ∷ [],
)

-- The descriptors that the constructor opens.
abbrev pub opened : ℤ → Answers → List ℕ
opened max_events a =
    if is_positive max_events
    then elim a.epoll [
      | none ↦ []
      | some epoll ↦ elim a.eventfd [ none ↦ epoll ∷ [] | some wakeup ↦ wakeup ∷ epoll ∷ [] ]
    ]
    else []

-- The destructor runs if the constructor has returned.
abbrev pub closed_later : Control → Result LoopError (Descriptors × Interest) → List ℕ
closed_later answer (ok (d, s)) = (destroy answer d s).1
closed_later answer (err e) = []

-- Whatever the system calls answer, the constructor, with the destructor if it has returned, closes
-- each descriptor that it opened, once.
pub create-destroy :
    (max_events : ℤ) (a : Answers) (answer : Control)
    → let (r, es) = create max_events a in es ++ closed_later answer r ≡ opened max_events a
unfolding create destroy add_channel
create-destroy max_events a answer = ground arith
