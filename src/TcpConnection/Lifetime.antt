-- ===== src/TcpConnection/Lifetime.antt =====
-- The end of a connection, src/network/TcpConnection.cpp with src/reactor/Channel.cpp, and the life
-- of its storage.
use lmonitor.Base.{◌≡◌, Bool, true, false, List, [], ◌∷◌, ◌++◌, some, err, arith}
use lmonitor.Base.Text.{Bytes}
use lmonitor.Channel.{Run, returned, use_after_free, handle_event}
use lmonitor.FrameCodec.{FrameError, try_decode}
use lmonitor.TcpConnection.{
  TcpConnection, erases, Effect, Recv, received, eof, request_close, process_rounds,
  process_pending_data, read_loop, handle_read, on_event,
}

-- The run reads storage that is freed.
abbrev pub Faults : Run Effect TcpConnection → Type 0
Faults (returned d es) = ⊥
Faults (use_after_free es) = Unit

-- A frame that announces more than one MiB makes `processPendingData` close the connection. With the
-- callback that TcpServer registers, this frees the connection while `handleRead` goes on with it.
pub bad_frame-Faults :
    (c : TcpConnection) (bytes : Bytes) (rs : List Recv) {x : FrameError}
    → c.alive ≡ true
    → c.closing ≡ false
    → c.close_callback ≡ some erases
    → try_decode (c.pending_data ++ bytes) ≡ err x
    → Faults (handle_read (received bytes ∷ rs) c)
unfolding handle_read read_loop process_pending_data process_rounds request_close
bad_frame-Faults c bytes [] live opened cb e = ground arith
bad_frame-Faults c bytes (r ∷ rs) live opened cb e = ground arith

-- When the peer closes, the event has EPOLLIN and EPOLLRDHUP. The read callback frees the
-- connection with its channel, and `handleEvent` then reads the channel's close callback.
pub peer_close-Faults :
    (c : TcpConnection) (rs : List Recv) (hup : Bool)
    → c.alive ≡ true
    → c.closing ≡ false
    → c.close_callback ≡ some erases
    → Faults (
        on_event
          (eof ∷ rs)
          (record { epollerr = false; epollin = true; epollhup = hup; epollrdhup = true })
          c)
unfolding on_event handle_event handle_read read_loop request_close
peer_close-Faults c rs hup live opened cb = ground arith
