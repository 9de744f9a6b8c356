-- ===== src/TcpConnection/Tests.antt =====
-- Connections at work, and the theorems about them at these inputs.
use lmonitor.Base.{List, [], ◌∷◌, ◌++◌, ◌≡◌, refl, flatten, true, false, arith, inl}
use lmonitor.Base.Text.{Bytes, codes}
use lmonitor.Channel.{returned}
use lmonitor.FrameCodec.{try_decode, write_header, frame_too_large}
use lmonitor.FrameCodec.RoundTrip.{try_decode_partial}
use lmonitor.TcpConnection.{
  TcpConnection, erases, received, eof, create, set_message_callback, set_close_callback,
  handle_read, on_event, on_inputs,
}
use lmonitor.TcpConnection.Drain.{deliveries}
use lmonitor.TcpConnection.Delivery.{answers, on_inputs-frames}
use lmonitor.TcpConnection.Lifetime.{Faults, bad_frame-Faults, peer_close-Faults}

abbrev agent : Bytes
agent = codes "10.0.0.7:4242"

abbrev open_connection : TcpConnection
open_connection = set_message_callback (create 9 agent)

-- The connection as TcpServer sets it up.
abbrev served : TcpConnection
served = set_close_callback erases open_connection

abbrev sent : List Bytes
sent = codes "cpu" ∷ codes "" ∷ []

-- A frame that began in earlier events, another one, and the start of a third: three events, cut
-- inside the first header, inside the first payload and inside the second header.
abbrev halfway : TcpConnection
halfway = record open_connection { pending_data = 0 ∷ [] }

abbrev pieces : List (List Bytes)
pieces =
    ((0 ∷ []) ∷ (0 ∷ 3 ∷ codes "c") ∷ [])
    ∷ ((codes "pu" ++ 0 ∷ []) ∷ [])
    ∷ ((0 ∷ 0 ∷ 0 ∷ []) ∷ (0 ∷ 0 ∷ []) ∷ [])
    ∷ []

on_inputs-frames_example :
    on_inputs (answers pieces) halfway
    ≡ returned (record halfway { pending_data = 0 ∷ 0 ∷ [] }) (deliveries agent sent)
unfolding write_header flatten create set_message_callback
on_inputs-frames_example =
    on_inputs-frames pieces halfway sent (0 ∷ 0 ∷ []) refl refl refl
      (try_decode_partial (0 ∷ []) (inl (omega arith))) (omega arith)
      (try_decode_partial (0 ∷ 0 ∷ []) (inl (omega arith))) refl

bad_frame-Faults_example : Faults (handle_read (received (0 ∷ 16 ∷ 0 ∷ 1 ∷ []) ∷ []) served)
unfolding create set_message_callback set_close_callback try_decode
bad_frame-Faults_example =
    bad_frame-Faults served (0 ∷ 16 ∷ 0 ∷ 1 ∷ []) [] {x = frame_too_large} refl refl refl refl

peer_close-Faults_example : Faults (
    on_event
      (eof ∷ [])
      (record { epollerr = false; epollin = true; epollhup = false; epollrdhup = true })
      served)
unfolding create set_message_callback set_close_callback
peer_close-Faults_example = peer_close-Faults served [] false refl refl refl
