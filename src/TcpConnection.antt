-- ===== src/TcpConnection.antt =====
-- include/network/TcpConnection.h and src/network/TcpConnection.cpp: the server's side of one
-- agent's socket. The kernel's answers to `recv` are an argument. The end of that list stands for
-- EAGAIN, which a non-blocking socket answers when nothing is there.
pub mod Drain
pub mod Delivery
pub mod Lifetime
mod Tests
use lmonitor.Base.{
  ℕ, zero, suc, Bool, true, false, List, [], ◌∷◌, ◌++◌, Option, none, some, ok, err, if◌then◌else◌,
  length,
}
use lmonitor.Base.Text.{Bytes, codes}
use lmonitor.Base.Decimal.{to_string}
use lmonitor.Logger.{Level}
use lmonitor.FrameCodec.{FrameError, payload_too_long, frame_too_large, try_decode}
use lmonitor.Channel as Channel
use lmonitor.Channel.{Run, returned, use_after_free, after, ◌>>=◌, Channel, Events, handle_event}

-- What the close callback does with the connection: the one callback of the program, that of
-- TcpServer.cpp, erases it from the table that owns it, and so destroys it.
pub data CloseCallback : Type 0 where
  erases : CloseCallback

pub record TcpConnection : Type 0 where
  pub fd : ℕ
  pub client_name : Bytes
  pub pending_data : Bytes
  pub has_message_callback : Bool
  pub close_callback : Option CloseCallback
  pub closing : Bool
  -- The object's storage is there.
  pub alive : Bool

-- Calls of the callbacks and of the logger.
pub data Effect : Type 0 where
  delivered : Bytes → Bytes → Effect
  closed : ℕ → Effect
  logged : Level → Bytes → Effect

pub data Recv : Type 0 where
  received : Bytes → Recv
  eof interrupted would_block failed : Recv

-- The constructor, less the registration with the event loop.
unfoldable pub create : ℕ → Bytes → TcpConnection
create fd name = record {
  fd = fd;
  client_name = name;
  pending_data = [];
  has_message_callback = false;
  close_callback = none;
  closing = false;
  alive = true;
}

unfoldable pub set_message_callback : TcpConnection → TcpConnection
set_message_callback c = record c { has_message_callback = true }

unfoldable pub set_close_callback : CloseCallback → TcpConnection → TcpConnection
set_close_callback cb c = record c { close_callback = some cb }

-- `e.what()`
abbrev what : FrameError → Bytes
what payload_too_long = codes "Frame payload exceeds maximum size"
what frame_too_large = codes "Received frame exceeds maximum size"

-- `if (closeCallback_) closeCallback_(fd_); else warning(…)`
call_close : Option CloseCallback → TcpConnection → TcpConnection × List Effect
call_close (some erases) c = (record c { alive = false }, closed c.fd ∷ [])
call_close none c = (
  c,
  logged Level.warning
        (codes "TcpConnection close requested without close callback: " ++ c.client_name)
      ∷ [],
)

unfoldable pub request_close : TcpConnection → TcpConnection × List Effect
unfolding call_close
request_close c =
    if c.closing then (c, []) else call_close c.close_callback (record c { closing = true })

-- The call of `messageCallback_` for one message.
abbrev pub on_message : TcpConnection → Bytes → List Effect
on_message c m = if c.has_message_callback then delivered c.client_name m ∷ [] else []

abbrev cons_effects : List Effect → TcpConnection × List Effect → TcpConnection × List Effect
cons_effects es (c, fs) = (c, es ++ fs)

abbrev invalid_frame : TcpConnection → FrameError → List Effect
invalid_frame c e =
    logged Level.error (codes "Invalid frame from " ++ (c.client_name ++ (codes ": " ++ what e)))
    ∷ []

-- A round takes at least a header off the buffer, so the buffer's length is fuel enough.
unfoldable pub process_rounds : ℕ → TcpConnection → TcpConnection × List Effect
process_rounds zero c = (c, [])
process_rounds (suc fuel) c = elim (try_decode c.pending_data) [
  | ok none ↦ (c, [])
  | ok (some (message, rest)) ↦
      cons_effects (on_message c message) (process_rounds fuel (record c { pending_data = rest }))
  | err e ↦ cons_effects (invalid_frame c e) (request_close c)
]

unfoldable pub process_pending_data : TcpConnection → TcpConnection × List Effect
process_pending_data c = process_rounds (suc (length c.pending_data)) c

abbrev pub finish : TcpConnection × List Effect → Run Effect TcpConnection
finish (c, es) = returned c es

-- `while (true)` of `handleRead`: each round passes `fd_` to `recv`.
unfoldable pub read_loop : List Recv → TcpConnection → Run Effect TcpConnection
read_loop [] c = if c.alive then returned c [] else use_after_free []
read_loop (r ∷ rs) c = elim c.alive [
  | false ↦ use_after_free []
  | true ↦ elim r [
    | received bytes ↦
        let (c', es) = process_pending_data (record c { pending_data = c.pending_data ++ bytes }) in
        after es (read_loop rs c')
    | eof ↦ finish (request_close c)
    | interrupted ↦ read_loop rs c
    | would_block ↦ returned c []
    | failed ↦ finish (
        cons_effects
          (logged Level.error
              (codes "recv failed from " ++ (c.client_name ++ (codes ", fd=" ++ to_string c.fd)))
            ∷ [])
          (request_close c))
  ]
]

unfoldable pub handle_read : List Recv → TcpConnection → Run Effect TcpConnection
handle_read rs c = if c.closing then returned c [] else read_loop rs c

unfoldable pub handle_close : TcpConnection → Run Effect TcpConnection
handle_close c = finish (request_close c)

unfoldable pub handle_error : TcpConnection → Run Effect TcpConnection
handle_error c =
    if c.closing
    then returned c []
    else finish (
        cons_effects
          (logged Level.error
              (codes "Socket error from " ++ (c.client_name ++ (codes ", fd=" ++ to_string c.fd)))
            ∷ [])
          (request_close c))

-- The channel that the constructor sets up.
abbrev pub channel : List Recv → Channel Effect TcpConnection
channel rs = Channel.set_error_callback handle_error (
    Channel.set_close_callback handle_close
      (Channel.set_read_callback (handle_read rs) Channel.no_callbacks))

-- One event of the socket, as the event loop hands it on.
unfoldable pub on_event : List Recv → Events → TcpConnection → Run Effect TcpConnection
on_event rs = handle_event (λ c. c.alive) (channel rs)

abbrev pub epollin : Events
epollin = record { epollerr = false; epollin = true; epollhup = false; epollrdhup = false }

-- The connection over several turns of the event loop: one readiness event after another, each with
-- the answers that `recv` gives until the socket is empty again.
unfoldable pub on_inputs : List (List Recv) → TcpConnection → Run Effect TcpConnection
on_inputs [] c = returned c []
on_inputs (rs ∷ events) c = on_event rs epollin c >>= on_inputs events
