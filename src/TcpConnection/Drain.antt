-- ===== src/TcpConnection/Drain.antt =====
-- `processPendingData` of src/network/TcpConnection.cpp, on the messages that the buffer holds.
use lmonitor.Base.{
  ℕ, zero, suc, ◌<◌, ◌≡◌, refl, ap, ◌∙◌, true, List, [], ◌∷◌, ◌++◌, map, none, some, ok, arith,
  length,
}
use lmonitor.Base.Text.{Bytes}
use lmonitor.Channel.{after}
use lmonitor.FrameCodec.{try_decode}
use lmonitor.FrameCodec.Stream.{Decodes, stop, more, length-try_decode}
use lmonitor.TcpConnection.{
  TcpConnection, Effect, delivered, process_rounds, process_pending_data, Recv, received, read_loop,
}

-- One call of the message callback for each message.
abbrev pub deliveries : Bytes → List Bytes → List Effect
deliveries name = map (delivered name)

rounds_stop :
    (fuel : ℕ) (c : TcpConnection)
    → try_decode c.pending_data ≡ ok none
    → process_rounds (suc fuel) c ≡ (c, [])
unfolding process_rounds
rounds_stop fuel c e = rw (e, process_rounds)

rounds_more :
    (fuel : ℕ) (c d : TcpConnection) (m rest : Bytes) (fs : List Effect)
    → c.has_message_callback ≡ true
    → try_decode c.pending_data ≡ ok (some (m, rest))
    → process_rounds fuel (record c { pending_data = rest }) ≡ (d, fs)
    → process_rounds (suc fuel) c ≡ (d, delivered c.client_name m ∷ fs)
unfolding process_rounds
rounds_more fuel c d m rest fs cb e later = ground arith

rounds-Decodes :
    (fuel : ℕ) (c : TcpConnection) {b : Bytes} {ms : List Bytes} {r : Bytes}
    → c.has_message_callback ≡ true
    → c.pending_data ≡ b
    → length b < fuel
    → Decodes b ms r
    → process_rounds fuel c ≡ (record c { pending_data = r }, deliveries c.client_name ms)
rounds-Decodes zero c cb p h d = absurd (omega arith)
rounds-Decodes (suc fuel) c cb p h (stop {b} e) =
    rounds_stop fuel c (ap try_decode p ∙ e) ∙ ap (λ q. (record c { pending_data = q }, [])) p
rounds-Decodes (suc fuel) c cb p h (more {b} {m} {rest} {ms} {r} e t) =
    rounds_more fuel c _ m rest _ cb (ap try_decode p ∙ e) (
      rounds-Decodes fuel (record c { pending_data = rest }) cb refl
        (omega (arith, length-try_decode b e)) t)

-- A buffer that holds the messages `ms` and then `r` hands on `ms` and keeps `r`.
pub process-Decodes :
    (c : TcpConnection) {ms : List Bytes} {r : Bytes}
    → c.has_message_callback ≡ true
    → Decodes c.pending_data ms r
    → process_pending_data c ≡ (record c { pending_data = r }, deliveries c.client_name ms)
unfolding process_pending_data
process-Decodes c cb d = rounds-Decodes (suc (length c.pending_data)) c cb refl (omega arith) d

pub read_loop-received :
    (bytes : Bytes) (rs : List Recv) (c d : TcpConnection) (es : List Effect)
    → c.alive ≡ true
    → process_pending_data (record c { pending_data = c.pending_data ++ bytes }) ≡ (d, es)
    → read_loop (received bytes ∷ rs) c ≡ after es (read_loop rs d)
unfolding read_loop
read_loop-received bytes rs c d es live e = ground arith
