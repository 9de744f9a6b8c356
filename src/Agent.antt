-- ===== src/Agent.antt =====
-- The connection of an agent: src/network/TcpClient.cpp, and the part of the loop in
-- src/agent/MonitorAgent.cpp that connects and sends. What `connect` and `send` answer, and the
-- steady clock, are arguments.
pub mod Sending
pub mod Backoff
pub mod Sampling
pub mod Display
mod Tests
use Prim.Native.Nat.{min}
use lmonitor.Base.{
  ℕ, zero, suc, ◌+◌, ◌*◌, Bool, true, false, not, ◌&&◌, List, [], ◌∷◌, ◌++◌, Option, none, some,
  leb, ◌==◌, if◌then◌else◌, take, drop,
}
use lmonitor.Base.Text.{Bytes}

-- `socketFd_`, with `none` for -1
pub record TcpClient : Type 0 where
  pub socket_fd : Option ℕ

abbrev has_fd : Option ℕ → Bool
has_fd none = false
has_fd (some fd) = true

unfoldable pub is_connected : TcpClient → Bool
is_connected c = has_fd c.socket_fd

unfoldable pub disconnect : TcpClient → TcpClient
disconnect c = record c { socket_fd = none }

-- The argument is the new socket, connected; `none` stands for a failure of `socket`, `inet_pton` or
-- `connect`, after which a new socket is closed again.
unfoldable pub connect_to_server : Option ℕ → TcpClient → Bool × TcpClient
unfolding is_connected
connect_to_server attempt c =
    if is_connected c
    then (true, c)
    else elim attempt [ none ↦ (false, c) | some fd ↦ (true, record c { socket_fd = some fd }) ]

-- An answer of `send`: a number of bytes, the error EINTR, or another error.
pub data Sent : Type 0 where
  accepted : ℕ → Sent
  interrupted failed : Sent

-- The loop of `sendAll` on the bytes that are left: the bytes that went out, and the result with the
-- client after it, or `none` if the last `send` has not returned.
unfoldable pub send_loop : List Sent → Bytes → TcpClient → Bytes × Option (Bool × TcpClient)
unfolding disconnect
send_loop answers [] c = ([], some (true, c))
send_loop [] (b ∷ left) c = ([], none)
send_loop (interrupted ∷ answers) (b ∷ left) c = send_loop answers (b ∷ left) c
send_loop (failed ∷ answers) (b ∷ left) c = ([], some (false, disconnect c))
send_loop (accepted zero ∷ answers) (b ∷ left) c = ([], some (false, disconnect c))
send_loop (accepted (suc n) ∷ answers) (b ∷ left) c =
    let (out, result) = send_loop answers (drop n left) c in (b ∷ (take n left ++ out), result)

unfoldable pub send_all : List Sent → Bytes → TcpClient → Bytes × Option (Bool × TcpClient)
unfolding is_connected send_loop
send_all answers frame c =
    if not (is_connected c) then ([], some (false, c)) else send_loop answers frame c

-- Ticks of the steady clock, nanoseconds, in a second.
abbrev pub ticks_per_second : ℕ
ticks_per_second = 1_000_000_000

abbrev pub max_reconnect_delay : ℕ
max_reconnect_delay = 30

-- `tcpClient_`, and the variables of the loop; the delay is in seconds.
pub record Retry : Type 0 where
  pub client : TcpClient
  pub reconnect_delay : ℕ
  pub next_reconnect_time : ℕ

unfoldable pub start : ℕ → Retry
start now = record {
  client = record { socket_fd = none };
  reconnect_delay = 1;
  next_reconnect_time = now;
}

-- `!tcpClient_.isConnected() && reconnectNow >= nextReconnectTime`
unfoldable pub is_due : ℕ → Retry → Bool
unfolding is_connected
is_due now r = not (is_connected r.client) && leb r.next_reconnect_time now

abbrev connected_or_not : ℕ → Retry → Bool × TcpClient → Retry
connected_or_not now r (true, c) = record {
  client = c;
  reconnect_delay = 1;
  next_reconnect_time = now;
}
connected_or_not now r (false, c) = record {
  client = c;
  reconnect_delay = min (r.reconnect_delay * 2) max_reconnect_delay;
  next_reconnect_time = now + r.reconnect_delay * ticks_per_second;
}

-- The automatic reconnect of one round.
unfoldable pub reconnect : ℕ → Option ℕ → Retry → Retry
unfolding is_due connect_to_server
reconnect now attempt r =
    if is_due now r then connected_or_not now r (connect_to_server attempt r.client) else r

abbrev sent_or_not : ℕ → Retry → Option (Bool × TcpClient) → Option Retry
sent_or_not later r none = none
sent_or_not later r (some (true, c)) = some (record r { client = c })
sent_or_not later r (some (false, c)) =
    some (record {
      client = c;
      reconnect_delay = 1;
      next_reconnect_time = later + 1 * ticks_per_second;
    })

-- The transmission of one round; `later` is the clock when `sendAll` has failed.
unfoldable pub transmit : ℕ → List Sent → Bytes → Retry → Bytes × Option Retry
unfolding is_connected send_all
transmit later answers frame r =
    if is_connected r.client
    then (let (out, result) = send_all answers frame r.client in (out, sent_or_not later r result))
    else ([], some r)
