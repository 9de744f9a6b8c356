-- ===== src/Timer.antt =====
-- include/timer/TimerFd.h and src/timer/TimerFd.cpp, with what the system calls answer.
use lmonitor.Base.{ℕ, Bool, Option, none, some, Result, ok, err, if◌then◌else◌, ◌==◌}

pub record TimerFd : Type 0 where
  pub fd : ℕ
  -- The period in seconds, if the timer is armed.
  pub interval : Option ℕ

pub data TimerError : Type 0 where
  not_created zero_interval not_started not_read : TimerError

unfoldable pub create : Option ℕ → Result TimerError TimerFd
create none = err not_created
create (some fd) = ok (record { fd = fd; interval = none })

-- The flag is whether timerfd_settime succeeds.
unfoldable pub start : Bool → ℕ → TimerFd → Result TimerError TimerFd
start set seconds t =
    if seconds == 0
    then err zero_interval
    else if set
    then ok (record t { interval = some seconds })
    else err not_started

unfoldable pub stop : Bool → TimerFd → TimerFd
stop set t = if set then record t { interval = none } else t

-- An answer of `read` on the timerfd.
pub data Expirations : Type 0 where
  expired : ℕ → Expirations
  would_block failed : Expirations

unfoldable pub read_expiration_count : Expirations → Result TimerError ℕ
read_expiration_count (expired n) = ok n
read_expiration_count would_block = ok 0
read_expiration_count failed = err not_read
