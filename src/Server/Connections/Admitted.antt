-- ===== src/Server/Connections/Admitted.antt =====
-- Clients that arrive while the kernel hands out descriptors that are not open.
use lmonitor.Base.{
  ℕ, ◌+◌, ◌≤◌, ◌≡◌, refl, sym, subst, Bool, true, false, List, [], ◌∷◌, none, some, ==_iff, All,
  Option-cases, inl, inr, arith,
}
use lmonitor.Base.Text.{Bytes, nat_key}
use lmonitor.Base.Map.{Map, lookup, insert, lookup-insert, lookup-insert_self}
use lmonitor.Acceptor.{
  Accepted, client, interrupted, would_block, failed, handle_accept, handed, client_name,
}
use lmonitor.TcpConnection.{TcpConnection, create}
use lmonitor.Server.Connections.{
  Connections, ready, construct, admit, emplace, new_connection, count, held,
}
use lmonitor.Server.Connections.Tracked.{held-insert}

-- What accept4 hands out is not open, and so is not in the table.
abbrev pub IsFresh : List Accepted → Map ℕ TcpConnection → Type 0
IsFresh answers table = (fd : ℕ) → count fd (handed answers) + held fd table ≤ 1

-- The clients whose address has a text, with their names.
abbrev pub arrivals : List Accepted → List (ℕ × Bytes)
arrivals [] = []
arrivals (interrupted ∷ answers) = arrivals answers
arrivals (would_block ∷ answers) = []
arrivals (failed ∷ answers) = []
arrivals (client fd none port ∷ answers) = arrivals answers
arrivals (client fd (some ip) port ∷ answers) = (fd, client_name ip port) ∷ arrivals answers

-- Every registration succeeds.
abbrev pub registering : Map ℕ TcpConnection → Connections
registering table = record { table = table; registrations = [] }

-- The table has the connection of the client.
abbrev pub IsServed : Map ℕ TcpConnection → ℕ × Bytes → Type 0
IsServed table (fd, name) = lookup fd table ≡ some (ready (create fd name))

admit_new :
    (fd : ℕ) (name : Bytes) (s : Connections)
    → s.registrations ≡ []
    → lookup fd s.table ≡ none
    → (new_connection fd name s).0
      ≡ record { table = insert fd (ready (create fd name)) s.table; registrations = [] }
unfolding new_connection
admit_new fd name s r e = rw (r, e, new_connection) refl

emplace_kept :
    (fd k : ℕ) (c d : TcpConnection) (table : Map ℕ TcpConnection)
    → lookup k table ≡ some c
    → lookup k (emplace fd d (lookup fd table) table).0 ≡ some c
emplace_kept fd k c d table h = elim (Option-cases (lookup fd table)) [
  | inl e ↦ rw e (ground (arith, lookup-insert fd k d table, ==_iff fd k))
  | inr (old, e) ↦ rw e h
]

admit_kept :
    (fd k : ℕ) (c : TcpConnection) (name : Bytes) (answers : List Bool)
    (table : Map ℕ TcpConnection)
    → lookup k table ≡ some c
    → lookup k (admit fd (construct fd name answers) table).0.table ≡ some c
admit_kept fd k c name [] table h = emplace_kept fd k c (ready (create fd name)) table h
admit_kept fd k c name (true ∷ answers) table h =
    emplace_kept fd k c (ready (create fd name)) table h
admit_kept fd k c name (false ∷ answers) table h = h

new_connection_kept :
    (fd k : ℕ) (c : TcpConnection) (name : Bytes) (s : Connections)
    → lookup k s.table ≡ some c
    → lookup k (new_connection fd name s).0.table ≡ some c
unfolding new_connection
new_connection_kept fd k c name s h = admit_kept fd k c name s.registrations s.table h

accept_kept :
    (answers : List Accepted) (k : ℕ) (c : TcpConnection) (s : Connections)
    → lookup k s.table ≡ some c
    → lookup k (handle_accept (some new_connection) answers s).0.table ≡ some c
unfolding handle_accept
accept_kept [] k c s h = h
accept_kept (interrupted ∷ answers) k c s h = accept_kept answers k c s h
accept_kept (would_block ∷ answers) k c s h = h
accept_kept (failed ∷ answers) k c s h = h
accept_kept (client fd none port ∷ answers) k c s h = accept_kept answers k c s h
accept_kept (client fd (some ip) port ∷ answers) k c s h =
    let name = client_name ip port in
    accept_kept answers k c (new_connection fd name s).0 (new_connection_kept fd k c name s h)

fresh_none :
    (fd : ℕ) (fds : List ℕ) (table : Map ℕ TcpConnection)
    → count fd (fd ∷ fds) + held fd table ≤ 1
    → lookup fd table ≡ none
fresh_none fd fds table h = elim (Option-cases (lookup fd table)) [
  | inl e ↦ e
  | inr (c, e) ↦ absurd (ground (arith, ==_iff fd fd))
]

fresh_later :
    (fd k : ℕ) (fds : List ℕ) (c : TcpConnection) (table : Map ℕ TcpConnection)
    → lookup fd table ≡ none
    → count k (fd ∷ fds) + held k table ≤ 1
    → count k fds + held k (insert fd c table) ≤ 1
fresh_later fd k fds c table e h = rw (held-insert fd k c table e) (omega (arith, h))

cons-IsServed :
    (fd : ℕ) (ip : Bytes) (port : ℕ) (answers : List Accepted) (s t : Connections)
    → (new_connection fd (client_name ip port) s).0 ≡ t
    → lookup fd t.table ≡ some (ready (create fd (client_name ip port)))
    → All (IsServed (handle_accept (some new_connection) answers t).0.table) (arrivals answers)
    → All
        (IsServed
          (handle_accept (some new_connection) (client fd (some ip) port ∷ answers) s).0.table)
        (arrivals (client fd (some ip) port ∷ answers))
unfolding handle_accept
cons-IsServed fd ip port answers s t e here later =
    let c = ready (create fd (client_name ip port)) in
    let same = sym e in
    (
      accept_kept answers fd c (new_connection fd (client_name ip port) s).0
          (subst (λ x. lookup fd x.table ≡ some c) same here),
      subst
          (λ x.
            All (IsServed (handle_accept (some new_connection) answers x).0.table)
              (arrivals answers))
          same later,
    )

burst-IsServed :
    (answers : List Accepted) (table : Map ℕ TcpConnection)
    → IsFresh answers table
    → All
        (IsServed (handle_accept (some new_connection) answers (registering table)).0.table)
        (arrivals answers)
unfolding handle_accept
burst-IsServed [] table f = tt
burst-IsServed (interrupted ∷ answers) table f = burst-IsServed answers table f
burst-IsServed (would_block ∷ answers) table f = tt
burst-IsServed (failed ∷ answers) table f = tt
burst-IsServed (client fd none port ∷ answers) table f =
    burst-IsServed answers table (λ k. omega (arith, f k))
burst-IsServed (client fd (some ip) port ∷ answers) table f =
    let name = client_name ip port in
    let c = ready (create fd name) in
    let e = fresh_none fd (handed answers) table (f fd) in
    cons-IsServed fd ip port answers (registering table) (registering (insert fd c table))
      (admit_new fd name (registering table) refl e) (lookup-insert_self fd c table)
      (burst-IsServed answers (insert fd c table)
        (λ k. fresh_later fd k (handed answers) c table e (f k)))

-- While accept4 hands out descriptors that are not open, and epoll_ctl registers them, each client
-- that handleAccept gets has its connection in the table when it returns, under its own name, and
-- the connections that were there are as they were.
pub accept-Served :
    (answers : List Accepted) (table : Map ℕ TcpConnection)
    → IsFresh answers table
    → let t = (handle_accept (some new_connection) answers (registering table)).0.table in
      All (IsServed t) (arrivals answers)
      × ((k : ℕ) (c : TcpConnection) → lookup k table ≡ some c → lookup k t ≡ some c)
unfolding handle_accept
accept-Served answers table f =
    (burst-IsServed answers table f, λ k c. accept_kept answers k c (registering table))
