-- ===== src/TcpConnection/Delivery.antt =====
-- `handleRead` of src/network/TcpConnection.cpp, on a stream that the network cuts into reads.
use lmonitor.Base.{
  ◌≤◌, ◌≡◌, refl, sym, ap, ◌∙◌, subst, true, false, List, [], ◌∷◌, ◌++◌, map, flatten, none, some,
  ok, arith, length, All, append-nil, append_assoc,
}
use mathlib.Core.List.{map-append}
use lmonitor.Base.Text.{Bytes}
use lmonitor.Channel.{Run, returned, after, ◌>>=◌, handle_event, when, call}
use lmonitor.FrameCodec.{max_frame_size, try_decode}
use lmonitor.FrameCodec.Stream.{
  Decodes, Split, Decodes-Split, Decodes_left, Decodes_partial, frames, frames-Decodes,
}
use lmonitor.TcpConnection.{
  TcpConnection, Effect, delivered, Recv, received, read_loop, handle_read, on_event, on_inputs,
  epollin,
}
use lmonitor.TcpConnection.Drain.{read_loop-received, deliveries, process-Decodes}

read_loop-chunks :
    (chunks : List Bytes) (c : TcpConnection) {ms : List Bytes} {r : Bytes}
    → c.alive ≡ true
    → c.has_message_callback ≡ true
    → try_decode c.pending_data ≡ ok none
    → Decodes (c.pending_data ++ flatten chunks) ms r
    → read_loop (map received chunks) c
      ≡ returned (record c { pending_data = r }) (deliveries c.client_name ms)
unfolding flatten
read_loop-chunks [] c {ms} {r} live cb w d =
    let (no_more, kept) =
      Decodes_partial w (subst (λ b. Decodes b ms r) (append-nil c.pending_data) d) in
    rw (no_more, kept) (unfold read_loop in ground arith)
read_loop-chunks (x ∷ chunks) c {ms} {r} live cb w d =
    let s : Split (c.pending_data ++ x) (flatten chunks) ms r =
      Decodes-Split (c.pending_data ++ x) (flatten chunks) (sym (append_assoc c.pending_data x _))
        d in
    read_loop-received x (map received chunks) c _ _ live
      (process-Decodes (record c { pending_data = c.pending_data ++ x }) cb s.found)
    ∙ ap (after (deliveries c.client_name s.early)) (
        read_loop-chunks chunks (record c { pending_data = s.left }) live cb (Decodes_left s.found)
          s.found_later)
    ∙ ap (returned (record c { pending_data = r })) (
        sym (map-append (Effect.delivered c.client_name) s.early s.late)
        ∙ ap (deliveries c.client_name) (sym s.all))

-- An open connection whose buffer holds no whole frame, and then receives the rest of a stream that
-- holds the messages `ms` and behind them `r`, hands on exactly `ms` in order and keeps `r`.
handle_read-chunks :
    (chunks : List Bytes) (c : TcpConnection) {ms : List Bytes} {r : Bytes}
    → c.alive ≡ true
    → c.closing ≡ false
    → c.has_message_callback ≡ true
    → try_decode c.pending_data ≡ ok none
    → Decodes (c.pending_data ++ flatten chunks) ms r
    → handle_read (map received chunks) c
      ≡ returned (record c { pending_data = r }) (deliveries c.client_name ms)
unfolding handle_read
handle_read-chunks chunks c live opened cb w d =
    ground (arith, read_loop-chunks chunks c live cb w d)

-- The bytes of a stream, cut into readiness events and each event into reads.
abbrev pub stream : List (List Bytes) → Bytes
stream events = flatten (map flatten events)

-- What `recv` answers at each of the events.
abbrev pub answers : List (List Bytes) → List (List Recv)
answers = map (map received)

call_live :
    (f : TcpConnection → Run Effect TcpConnection) (c : TcpConnection)
    → c.alive ≡ true
    → call (λ d. d.alive) (some f) c ≡ f c
unfolding call
call_live f c live = ground arith

on_event-input :
    (rs : List Recv) (c d : TcpConnection) (es : List Effect)
    → c.alive ≡ true
    → handle_read rs c ≡ returned d es
    → on_event rs epollin c ≡ returned d es
unfolding on_event handle_event when
on_event-input rs c d es live e =
    ap (λ q. after [] (q >>= λ s. returned s [])) (call_live (handle_read rs) c live ∙ e)
    ∙ ap (returned d) (append-nil es)

on_inputs-Decodes :
    (events : List (List Bytes)) (c : TcpConnection) {ms : List Bytes} {r : Bytes}
    → c.alive ≡ true
    → c.closing ≡ false
    → c.has_message_callback ≡ true
    → try_decode c.pending_data ≡ ok none
    → Decodes (c.pending_data ++ stream events) ms r
    → on_inputs (answers events) c
      ≡ returned (record c { pending_data = r }) (deliveries c.client_name ms)
unfolding on_inputs flatten
on_inputs-Decodes [] c {ms} {r} live opened cb w d =
    let (no_more, kept) =
      Decodes_partial w (subst (λ b. Decodes b ms r) (append-nil c.pending_data) d) in
    rw (no_more, kept) refl
on_inputs-Decodes (chunks ∷ events) c {ms} {r} live opened cb w d =
    let s : Split (c.pending_data ++ flatten chunks) (stream events) ms r =
      Decodes-Split (c.pending_data ++ flatten chunks) (stream events)
        (sym (append_assoc c.pending_data (flatten chunks) (stream events))) d in
    let first =
      on_event-input (map received chunks) c _ _ live
        (handle_read-chunks chunks c live opened cb w s.found) in
    ap (λ q. q >>= on_inputs (answers events)) first
    ∙ ap (after (deliveries c.client_name s.early)) (
        on_inputs-Decodes events (record c { pending_data = s.left }) live opened cb
          (Decodes_left s.found) s.found_later)
    ∙ ap (returned (record c { pending_data = r })) (
        sym (map-append (delivered c.client_name) s.early s.late)
        ∙ ap (deliveries c.client_name) (sym s.all))

-- The messages of one agent, each of at most one MiB, reach the server's callback once each and in
-- order, however their stream is cut into readiness events and these into reads: for any open
-- connection with the callback, whatever part of a frame its buffer kept from earlier events. The
-- part `r` of a frame at the end waits in the buffer.
pub on_inputs-frames :
    (events : List (List Bytes)) (c : TcpConnection) (ms : List Bytes) (r : Bytes)
    → c.alive ≡ true
    → c.closing ≡ false
    → c.has_message_callback ≡ true
    → try_decode c.pending_data ≡ ok none
    → All (λ m. length m ≤ max_frame_size) ms
    → try_decode r ≡ ok none
    → c.pending_data ++ stream events ≡ frames ms ++ r
    → on_inputs (answers events) c
      ≡ returned (record c { pending_data = r }) (deliveries c.client_name ms)
on_inputs-frames events c ms r live opened cb kept fits w e =
    on_inputs-Decodes events c live opened cb kept
      (subst (λ b. Decodes b ms r) (sym e) (frames-Decodes ms r fits w))
