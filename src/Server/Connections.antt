-- ===== src/Server/Connections.antt =====
-- The callback for new connections in src/server/TcpServer.cpp, the close callback that it gives
-- them, and the table that owns the connections.
pub mod Tracked
pub mod Admitted
mod Tests
use lmonitor.Base.{
  ℕ, ◌+◌, Bool, true, false, List, [], ◌∷◌, ◌++◌, Option, none, some, ◌==◌, if◌then◌else◌,
}
use lmonitor.Base.Text.{Bytes, codes, nat_key}
use lmonitor.Base.Decimal.{to_string}
use lmonitor.Base.Map.{Map, lookup, insert, erase}
use lmonitor.Logger.{Level}
use lmonitor.Acceptor.{Accepted, Effect, logged, closed_fd, handle_accept, handed}
use lmonitor.TcpConnection.{TcpConnection, erases, create, set_message_callback, set_close_callback}

-- `connections`, with what `epoll_ctl` answers when a connection registers its channel; the end of
-- the list stands for success.
pub record Connections : Type 0 where
  pub table : Map ℕ TcpConnection
  pub registrations : List Bool

-- `std::make_unique<TcpConnection>`, whose constructor throws if the registration fails.
abbrev pub construct : ℕ → Bytes → List Bool → Option TcpConnection × List Bool
construct fd name [] = (some (create fd name), [])
construct fd name (true ∷ answers) = (some (create fd name), answers)
construct fd name (false ∷ answers) = (none, answers)

-- The destructor.
abbrev pub destroyed : TcpConnection → List Effect
destroyed c = closed_fd c.fd ∷ []

-- The callbacks that a new connection gets.
abbrev pub ready : TcpConnection → TcpConnection
ready c = set_close_callback erases (set_message_callback c)

-- `emplace` leaves an entry that is there, and the new connection is then destroyed.
abbrev pub emplace :
    ℕ
    → TcpConnection
    → Option TcpConnection
    → Map ℕ TcpConnection
    → Map ℕ TcpConnection × List Effect
emplace fd c none table = (insert fd c table, [])
emplace fd c (some old) table = (table, destroyed c)

abbrev pub admit :
    ℕ → Option TcpConnection × List Bool → Map ℕ TcpConnection → Connections × List Effect
admit fd (none, answers) table = (
  record { table = table; registrations = answers },
  logged Level.error (codes "Create TcpConnection failed: Failed to add Channel to epoll")
      ∷ closed_fd fd
      ∷ [],
)
admit fd (some c, answers) table =
    let (table₁, es) = emplace fd (ready c) (lookup fd table) table in
    (record { table = table₁; registrations = answers }, es)

abbrev pub connected : ℕ → Bytes → Effect
connected fd name =
    logged Level.info (codes "Client connected: " ++ (name ++ (codes ", fd=" ++ to_string fd)))

unfoldable pub new_connection : ℕ → Bytes → Connections → Connections × List Effect
new_connection fd name s =
    let (s₁, es) = admit fd (construct fd name s.registrations) s.table in
    (s₁, connected fd name ∷ es)

abbrev pub disconnect : ℕ → Option TcpConnection → Connections → Connections × List Effect
disconnect fd none s = (s, [])
disconnect fd (some c) s = (
  record s { table = erase fd s.table },
  logged Level.info (codes "Client disconnected fd=" ++ to_string fd) ∷ destroyed c,
)

-- The close callback.
unfoldable pub on_close : ℕ → Connections → Connections × List Effect
on_close fd s = disconnect fd (lookup fd s.table) s

-- What changes the table: a call of `handleAccept`, and a call of the close callback.
pub data Step : Type 0 where
  accepting : List Accepted → Step
  closing : ℕ → Step

unfoldable pub step : Step → Connections → Connections × List Effect
step (accepting answers) s = handle_accept (some new_connection) answers s
step (closing fd) s = on_close fd s

unfoldable pub run : List Step → Connections → Connections × List Effect
unfolding step
run [] s = (s, [])
run (x ∷ xs) s = let (s₁, es) = step x s in let (s₂, later) = run xs s₁ in (s₂, es ++ later)

-- The descriptors that a step opens, and those of all steps.
abbrev pub descriptors : Step → List ℕ
descriptors (accepting answers) = handed answers
descriptors (closing fd) = []

abbrev pub opened : List Step → List ℕ
opened [] = []
opened (x ∷ xs) = descriptors x ++ opened xs

abbrev pub count : ℕ → List ℕ → ℕ
count fd [] = 0
count fd (x ∷ xs) = (if x == fd then 1 else 0) + count fd xs

-- Whether the table has the descriptor.
abbrev pub held : ℕ → Map ℕ TcpConnection → ℕ
held fd table = elim (lookup fd table) [ none ↦ 0 | some c ↦ 1 ]
