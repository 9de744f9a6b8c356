-- ===== src/Server/Startup.antt =====
-- The start of `TcpServer::run` in src/server/TcpServer.cpp, up to the acceptor, its end, and
-- the callback of the signal channel. What the system calls answer is an argument.
use lmonitor.Base.{
  ℕ, ◌-◌, ◌%◌, ◌^◌, Bool, false, ◌||◌, List, [], ◌∷◌, ◌++◌, Option, none, some, Result, ok, err,
  ◌>>=◌, if◌then◌else◌, ◌==◌,
}
use lmonitor.Base.Text.{codes}
use lmonitor.Base.Number.{ℤ, pos, negsuc, NumberError}
use lmonitor.Float.{Float}
use lmonitor.Config.{Config, get_int}
use lmonitor.Store.HistoryStore as HistoryStore
use lmonitor.Store.MetricsStore as MetricsStore
use lmonitor.Store.StateTracker as StateTracker
use lmonitor.Alert.Manager as AlertManager
use lmonitor.ThreadPool as ThreadPool
use lmonitor.ThreadPool.{ThreadPool, PoolError}
use lmonitor.Timer as Timer
use lmonitor.Timer.{TimerFd, TimerError}
use lmonitor.EventLoop.Channels.{Control, ChannelError, Interest, add_channel, remove_channel}
use lmonitor.Http.Thread as HttpThread
use lmonitor.Http.Thread.{HttpThread, Effect, closed_fd}
use lmonitor.Server.{Server, Task}

abbrev pub worker_thread_count : ℕ
worker_thread_count = 4

abbrev pub max_worker_queue_size : ℕ
max_worker_queue_size = 1024

-- `static_cast<uint16_t>` and the conversion to std::size_t of an int.
unfoldable pub to_uint16 : ℤ → ℕ
to_uint16 (pos n) = n % 2 ^ 16
to_uint16 (negsuc n) = 2 ^ 16 - 1 - n % 2 ^ 16

unfoldable pub to_size : ℤ → ℕ
to_size (pos n) = n
to_size (negsuc n) = 2 ^ 64 - 1 - n

-- `port_` and `httpPort_`
pub record TcpServer : Type 0 where
  pub port : ℕ
  pub http_port : ℕ

unfoldable pub create : ℕ → Config → Result NumberError TcpServer
unfolding to_uint16
create port config = do
  http ← get_int (codes "server.http_port") (pos 8080) config
  ok (record { port = port; http_port = to_uint16 http })

-- The exceptions that leave `run` before its loop.
pub data StartError : Type 0 where
  bad_number : NumberError → StartError
  pool : PoolError → StartError
  timer : TimerError → StartError
  channel : ChannelError → StartError
  signal_setup : StartError

abbrev numbers {ℓ} : {V : Type ℓ} → Result NumberError V → Result StartError V
numbers (ok v) = ok v
numbers (err e) = err (bad_number e)

abbrev pooled {ℓ} : {V : Type ℓ} → Result PoolError V → Result StartError V
pooled (ok v) = ok v
pooled (err e) = err (pool e)

abbrev timed {ℓ} : {V : Type ℓ} → Result TimerError V → Result StartError V
timed (ok v) = ok v
timed (err e) = err (timer e)

abbrev watched {ℓ} : {V : Type ℓ} → Result ChannelError V → Result StartError V
watched (ok v) = ok v
watched (err e) = err (channel e)

-- The answers, in the order of the calls.
pub record Answers : Type 0 where
  pub timer_fd : Option ℕ
  pub timer_set : Bool
  pub timer_added : Control
  pub mask_empty : Bool
  pub mask_set : Bool
  pub signal_fd : Option ℕ
  pub signal_added : Control

-- EPOLLIN
abbrev epollin : ℕ
epollin = 1

-- The objects that the threads share.
unfoldable pub objects : {D : Type 0} → Float D → Config → Result StartError (Server D)
objects F config = do
  manager ← numbers (AlertManager.create F config)
  ok (record {
    metrics_store = MetricsStore.empty;
    history_store = HistoryStore.create 120;
    alert_manager = manager;
    state_tracker = StateTracker.empty;
    pending_functors = [];
  })

unfoldable pub worker_pool : {D : Type 0} → Config → Result StartError (ThreadPool (Task D))
unfolding to_size
worker_pool config = do
  threads ← numbers (get_int (codes "worker.threads") (pos worker_thread_count) config)
  queue ← numbers (get_int (codes "worker.queue_size") (pos max_worker_queue_size) config)
  pooled (ThreadPool.create (to_size threads) (to_size queue))

-- The timer with its channel: the status is checked every 5 seconds.
unfoldable pub status_timer : Answers → Interest → Result StartError (TimerFd × Interest)
status_timer a s = do
  created ← timed (Timer.create a.timer_fd)
  started ← timed (Timer.start a.timer_set 5 created)
  interest ←
      watched (add_channel a.timer_added (some (record { fd = started.fd; events = epollin })) s)
  ok (started, interest)

abbrev opened : Option ℕ → Result StartError ℕ
opened none = err signal_setup
opened (some fd) = ok fd

unfoldable pub signal_channel : Answers → Interest → Result StartError (ℕ × Interest)
signal_channel a s =
    if a.mask_empty
    then if a.mask_set
      then (do
        fd ← opened a.signal_fd
        interest ←
            watched (add_channel a.signal_added (some (record { fd = fd; events = epollin })) s)
        ok (fd, interest))
      else err signal_setup
    else err signal_setup

-- What stands when the acceptor is made; the interest leaves out the channel of the wake-up.
pub record Started (D : Type 0) : Type 0 where
  pub server : Server D
  pub pool : ThreadPool (Task D)
  pub timer : TimerFd
  pub signal_fd : ℕ
  pub interest : Interest

unfoldable pub start_up : {D : Type 0} → Float D → Answers → Config → Result StartError (Started D)
unfolding objects worker_pool status_timer signal_channel
start_up F a config = do
  server ← objects F config
  workers ← worker_pool config
  timing ← status_timer a []
  signals ← signal_channel a timing.1
  ok (record {
    server = server;
    pool = workers;
    timer = timing.0;
    signal_fd = signals.0;
    interest = signals.1;
  })

-- The callback of the signal channel, on the number that a whole read gives: whether it calls `quit`.
unfoldable pub on_signal : Option ℕ → Bool
on_signal none = false
on_signal (some signo) = signo == 2 || signo == 15

-- What `run` does after the loop: the HTTP thread stops, then the timer; the channels of the timer and
-- of the signals are removed, and the signal descriptor is closed. A channel that cannot be removed
-- leaves `run` by an exception.
unfoldable pub shut_down :
    {D : Type 0}
    → Bool
    → Control
    → Control
    → HttpThread
    → Started D
    → Result StartError (HttpThread × TimerFd × Interest × List Effect)
shut_down timer_set timer_removed signal_removed http s = do
  let stopped = HttpThread.stop http
  let timer = Timer.stop timer_set s.timer
  without_timer ←
      watched (
        remove_channel timer_removed (some (record { fd = timer.fd; events = epollin })) s.interest)
  without_signal ← watched (
      remove_channel signal_removed (some (record { fd = s.signal_fd; events = epollin }))
        without_timer)
  ok (stopped.0, timer, without_signal, stopped.1 ++ closed_fd s.signal_fd ∷ [])
