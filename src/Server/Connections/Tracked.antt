-- ===== src/Server/Connections/Tracked.antt =====
-- The table of connections over any steps: what it owns, and what was closed.
use lmonitor.Base.{
  ℕ, ◌+◌, ◌≡◌, refl, Bool, true, false, List, [], ◌∷◌, ◌++◌, Option, none, some, ◌==◌, ==_iff,
  if◌then◌else◌, Option-cases, inl, inr, arith,
}
use lmonitor.Base.Text.{Bytes, nat_key}
use lmonitor.Base.Map.{Map, lookup, insert, erase, lookup-insert, lookup-erase}
use lmonitor.Acceptor.{
  Accepted, client, interrupted, would_block, failed, Effect, logged, closed_fd, handle_accept,
  handed, closed_fds, greet, client_name,
}
use lmonitor.TcpConnection.{TcpConnection, erases, create, set_message_callback, set_close_callback}
use lmonitor.Server.Connections.{
  descriptors, Connections, construct, admit, emplace, ready, new_connection, on_close, Step,
  accepting, closing, step, run, opened, count, held,
}

-- A connection that is ready, at its own descriptor.
abbrev pub IsServing : ℕ → TcpConnection → Type 0
IsServing fd c = (c.fd ≡ fd) × (c.has_message_callback ≡ true) × (c.close_callback ≡ some erases)

abbrev pub IsTable : Map ℕ TcpConnection → Type 0
IsTable table = (fd : ℕ) (c : TcpConnection) → lookup fd table ≡ some c → IsServing fd c

-- From one state to another with these effects: each descriptor that was opened is closed, or is
-- held, once.
abbrev pub IsBalanced : List ℕ → Connections → Connections × List Effect → Type 0
IsBalanced fds s (t, es) =
    (fd : ℕ) → count fd fds + held fd s.table ≡ count fd (closed_fds es) + held fd t.table

insert-IsTable :
    (fd : ℕ) (c : TcpConnection) (table : Map ℕ TcpConnection)
    → IsServing fd c
    → IsTable table
    → IsTable (insert fd c table)
insert-IsTable fd c table h t k d e = ground (arith, lookup-insert fd k c table, ==_iff fd k, t k d)

erase-IsTable : (fd : ℕ) (table : Map ℕ TcpConnection) → IsTable table → IsTable (erase fd table)
erase-IsTable fd table t k d e = ground (arith, lookup-erase fd k table, t k d)

pub held-insert :
    (fd k : ℕ) (c : TcpConnection) (table : Map ℕ TcpConnection)
    → lookup fd table ≡ none
    → held k (insert fd c table) ≡ (if fd == k then 1 else 0) + held k table
held-insert fd k c table e = ground (arith, lookup-insert fd k c table, ==_iff fd k)

pub held-erase :
    (fd k : ℕ) (c : TcpConnection) (table : Map ℕ TcpConnection)
    → lookup fd table ≡ some c
    → (if fd == k then 1 else 0) + held k (erase fd table) ≡ held k table
held-erase fd k c table e = ground (arith, lookup-erase fd k table, ==_iff fd k)

count-append : (fd : ℕ) (xs ys : List ℕ) → count fd (xs ++ ys) ≡ count fd xs + count fd ys
count-append fd [] ys = omega arith
count-append fd (x ∷ xs) ys = omega (arith, count-append fd xs ys)

closed_fds-append : (es fs : List Effect) → closed_fds (es ++ fs) ≡ closed_fds es ++ closed_fds fs
closed_fds-append [] fs = refl
closed_fds-append (logged level text ∷ es) fs = closed_fds-append es fs
closed_fds-append (closed_fd fd ∷ es) fs = rw (closed_fds-append es fs) refl

-- The table is kept, and the descriptors are balanced.
abbrev pub Keeps : List ℕ → Connections → Connections × List Effect → Type 0
Keeps fds s p = IsTable p.0.table × IsBalanced fds s p

seq-Keeps :
    (fds gds : List ℕ) (s : Connections) (p q : Connections × List Effect)
    → Keeps fds s p
    → Keeps gds p.0 q
    → Keeps (fds ++ gds) s (q.0, p.1 ++ q.1)
seq-Keeps fds gds s p q h k = (
  k.0,
  λ fd.
      rw
        (
          count-append fd fds gds,
          closed_fds-append p.1 q.1,
          count-append fd (closed_fds p.1) (closed_fds q.1),
        )
        (omega (arith, h.1 fd, k.1 fd)),
)

emplace-Keeps :
    (fd : ℕ) (c : TcpConnection) (answers rest : List Bool) (table : Map ℕ TcpConnection)
    → IsServing fd c
    → IsTable table
    → Keeps
        (fd ∷ [])
        (record { table = table; registrations = answers })
        (let (table₁, es) = emplace fd c (lookup fd table) table in
          (record { table = table₁; registrations = rest }, es))
emplace-Keeps fd c answers rest table h t = elim (Option-cases (lookup fd table)) [
  | inl e ↦ rw e (insert-IsTable fd c table h t, λ k. omega (arith, held-insert fd k c table e))
  | inr (old, e) ↦ rw e (t, λ k. rw h.0 (omega arith))
]

ready-IsServing : (fd : ℕ) (name : Bytes) → IsServing fd (ready (create fd name))
unfolding create set_message_callback set_close_callback
ready-IsServing fd name = (refl, refl, refl)

admit-Keeps :
    (fd : ℕ) (name : Bytes) (answers : List Bool) (table : Map ℕ TcpConnection)
    → IsTable table
    → Keeps
        (fd ∷ [])
        (record { table = table; registrations = answers })
        (admit fd (construct fd name answers) table)
admit-Keeps fd name [] table t =
    emplace-Keeps fd (ready (create fd name)) [] [] table (ready-IsServing fd name) t
admit-Keeps fd name (true ∷ answers) table t =
    emplace-Keeps fd (ready (create fd name)) (true ∷ answers) answers table
      (ready-IsServing fd name) t
admit-Keeps fd name (false ∷ answers) table t = (t, λ k. omega arith)

new_connection-Keeps :
    (fd : ℕ) (name : Bytes) (s : Connections)
    → IsTable s.table
    → Keeps (fd ∷ []) s (new_connection fd name s)
unfolding new_connection
new_connection-Keeps fd name s t = admit-Keeps fd name s.registrations s.table t

greet-Keeps :
    (fd : ℕ) (ip : Option Bytes) (port : ℕ) (s : Connections)
    → IsTable s.table
    → Keeps (fd ∷ []) s (greet (some new_connection) fd ip port s)
greet-Keeps fd none port s t = (t, λ k. omega arith)
greet-Keeps fd (some ip) port s t = new_connection-Keeps fd (client_name ip port) s t

accept-Keeps :
    (answers : List Accepted) (s : Connections)
    → IsTable s.table
    → Keeps (handed answers) s (handle_accept (some new_connection) answers s)
unfolding handle_accept
accept-Keeps [] s t = (t, λ k. refl)
accept-Keeps (interrupted ∷ answers) s t = accept-Keeps answers s t
accept-Keeps (would_block ∷ answers) s t = (t, λ k. refl)
accept-Keeps (failed ∷ answers) s t = (t, λ k. refl)
accept-Keeps (client fd ip port ∷ answers) s t =
    let p = greet (some new_connection) fd ip port s in
    let h = greet-Keeps fd ip port s t in
    seq-Keeps (fd ∷ []) (handed answers) s p (handle_accept (some new_connection) answers p.0) h
      (accept-Keeps answers p.0 h.0)

on_close-Keeps : (fd : ℕ) (s : Connections) → IsTable s.table → Keeps [] s (on_close fd s)
unfolding on_close
on_close-Keeps fd s t = elim (Option-cases (lookup fd s.table)) [
  | inl e ↦ rw (e, on_close) (t, λ k. refl)
  | inr (c, e) ↦
      rw (e, on_close)
        (
          erase-IsTable fd s.table t,
          λ k. rw (t fd c e).0 (omega (arith, held-erase fd k c s.table e)),
        )
]

step-Keeps : (x : Step) (s : Connections) → IsTable s.table → Keeps (descriptors x) s (step x s)
unfolding step
step-Keeps (accepting answers) s t = accept-Keeps answers s t
step-Keeps (closing fd) s t = on_close-Keeps fd s t

run-Keeps : (xs : List Step) (s : Connections) → IsTable s.table → Keeps (opened xs) s (run xs s)
unfolding run
run-Keeps [] s t = (t, λ k. refl)
run-Keeps (x ∷ xs) s t =
    let p = step x s in
    let h = step-Keeps x s t in
    seq-Keeps (descriptors x) (opened xs) s p (run xs p.0) h (run-Keeps xs p.0 h.0)

-- From a server with no client, whatever accept4, inet_ntop and epoll_ctl answer and whenever
-- connections close: each descriptor that accept4 handed out was closed or is in the table, once;
-- and each entry is a connection at its own descriptor, with the callbacks that serve it.
pub run-Owned :
    (xs : List Step) (registrations : List Bool) (fd : ℕ)
    → let p = run xs (record { table = []; registrations = registrations }) in
      IsTable p.0.table × (count fd (opened xs) ≡ count fd (closed_fds p.1) + held fd p.0.table)
unfolding lookup
run-Owned xs registrations fd =
    let k = run-Keeps xs (record { table = []; registrations = registrations }) (λ j c e. cc) in
    (k.0, omega (arith, k.1 fd))
