-- ===== src/Server/Connections/Tests.antt =====
-- A server with two clients, and the theorems about its table at these inputs.
use lmonitor.Base.{ℕ, ◌+◌, ◌≡◌, refl, true, false, List, [], ◌∷◌, none, some, All, arith}
use lmonitor.Base.Text.{codes, nat_key}
use lmonitor.Base.Map.{lookup, insert, erase}
use lmonitor.TcpConnection.{create, set_message_callback, set_close_callback}
use lmonitor.Acceptor.{Accepted, client, interrupted, would_block, handle_accept, closed_fds}
use lmonitor.Server.Connections.{
  Connections, Step, accepting, closing, new_connection, on_close, run, opened, count, held,
}
use lmonitor.Server.Connections.Tracked.{IsTable, run-Owned}
use lmonitor.Server.Connections.Admitted.{IsFresh, IsServed, registering, arrivals, accept-Served}

abbrev arriving : List Accepted
arriving =
    client 8 (some (codes "10.0.0.7")) 4242
    ∷ interrupted
    ∷ client 9 none 1
    ∷ client 10 (some (codes "10.0.0.8")) 77
    ∷ []

-- Descriptor 8 is closed and handed out again; then epoll_ctl refuses it.
abbrev busy : List Step
busy =
    accepting arriving
    ∷ closing 8
    ∷ closing 8
    ∷ accepting (client 8 (some (codes "10.0.0.9")) 5 ∷ would_block ∷ [])
    ∷ []

abbrev after_busy : Connections
after_busy = (run busy (record { table = []; registrations = true ∷ true ∷ false ∷ [] })).0

run-Owned_example :
    IsTable after_busy.table
    × (count 8 (opened busy)
        ≡ count 8 (
            closed_fds
              (run busy (record { table = []; registrations = true ∷ true ∷ false ∷ [] })).1)
          + held 8 after_busy.table)
run-Owned_example = run-Owned busy (true ∷ true ∷ false ∷ []) 8

run_closes :
    closed_fds (run busy (record { table = []; registrations = true ∷ true ∷ false ∷ [] })).1
    ≡ 9 ∷ 8 ∷ 8 ∷ []
unfolding run handle_accept new_connection on_close lookup insert erase create set_close_callback
    set_message_callback
run_closes = refl

arriving-IsFresh : IsFresh arriving []
unfolding lookup
arriving-IsFresh k = ground arith

accept-Served_example :
    All
      (IsServed (handle_accept (some new_connection) arriving (registering [])).0.table)
      (arrivals arriving)
    × ((k : ℕ) (c : _)
        → lookup k [] ≡ some c
        → lookup k (handle_accept (some new_connection) arriving (registering [])).0.table ≡ some c)
accept-Served_example = accept-Served arriving [] arriving-IsFresh
