-- ===== src/Agent/Tests.antt =====
-- An agent that sends and reconnects, and the theorems about it.
use lmonitor.Base.{◌≡◌, refl, true, false, [], ◌∷◌, some, none, arith}
use lmonitor.Base.Text.{codes}
use lmonitor.Agent.{
  TcpClient, is_connected, connect_to_server, disconnect, accepted, interrupted, failed, send_loop,
  send_all, Retry, start, is_due, reconnect, transmit,
}
use lmonitor.Agent.Sending.{Outcome, send_all-Outcome}
use lmonitor.Agent.Backoff.{started, went, Running-due}

abbrev online : TcpClient
online = record { socket_fd = some 7 }

broken_pipe :
    send_all (accepted 2 ∷ interrupted ∷ failed ∷ []) (codes "frame") online
    ≡ (codes "fr", some (false, record { socket_fd = none }))
unfolding send_all is_connected send_loop disconnect
broken_pipe = refl

send_all-Outcome_example :
    Outcome
      (codes "frame")
      online
      (send_all (accepted 2 ∷ interrupted ∷ failed ∷ []) (codes "frame") online)
unfolding is_connected
send_all-Outcome_example =
    send_all-Outcome (accepted 2 ∷ interrupted ∷ failed ∷ []) (codes "frame") online refl

abbrev refused : Retry
refused = record {
  client = record { socket_fd = none };
  reconnect_delay = 2;
  next_reconnect_time = 1_000_000_000;
}

Running-due_example :
    (is_due 40_000_000_000 refused ≡ true)
    × (is_connected (reconnect 40_000_000_000 (some 7) refused).client ≡ true)
unfolding start is_connected is_due reconnect connect_to_server transmit
Running-due_example =
    Running-due 0 5 40_000_000_000 7 refused
      (went 0 5 (start 0) refused none [] [] (omega arith) refl (started (start 0) refl)) refl
      (omega arith)
