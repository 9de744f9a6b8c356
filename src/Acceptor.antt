-- ===== src/Acceptor.antt =====
-- `handleAccept` of include/reactor/Acceptor.h and src/reactor/Acceptor.cpp. The answers of accept4
-- are an argument; the end of the list stands for EAGAIN. The callback acts on a state `S`.
pub mod Listening
use lmonitor.Base.{ℕ, List, [], ◌∷◌, ◌++◌, Option, none, some}
use lmonitor.Base.Text.{Bytes, codes}
use lmonitor.Base.Decimal.{to_string}
use lmonitor.Logger.{Level}

-- A descriptor with what inet_ntop makes of the address, and the port; or an error.
pub data Accepted : Type 0 where
  client : ℕ → Option Bytes → ℕ → Accepted
  interrupted would_block failed : Accepted

-- Calls of the logger and of `close`.
pub data Effect : Type 0 where
  logged : Level → Bytes → Effect
  closed_fd : ℕ → Effect

abbrev pub client_name : Bytes → ℕ → Bytes
client_name ip port = ip ++ (codes ":" ++ to_string port)

module _ {ℓ} {S : Type ℓ} where
  -- `if (newConnectionCallback_) … else …`
  abbrev pub notify : Option (ℕ → Bytes → S → S × List Effect) → ℕ → Bytes → S → S × List Effect
  notify none fd name s = (
    s,
    logged Level.warning (codes "Accepted client but no new-connection callback is registered")
        ∷ closed_fd fd
        ∷ [],
  )
  notify (some callback) fd name s = callback fd name s

  -- What one round of the loop does, before the rounds on the other answers.
  abbrev pub greet :
      Option (ℕ → Bytes → S → S × List Effect) → ℕ → Option Bytes → ℕ → S → S × List Effect
  greet callback fd none port s =
      (s, logged Level.error (codes "Failed to parse client IP") ∷ closed_fd fd ∷ [])
  greet callback fd (some ip) port s = notify callback fd (client_name ip port) s

  unfoldable pub handle_accept :
      Option (ℕ → Bytes → S → S × List Effect) → List Accepted → S → S × List Effect
  handle_accept callback [] s = (s, [])
  handle_accept callback (interrupted ∷ answers) s = handle_accept callback answers s
  handle_accept callback (would_block ∷ answers) s = (s, [])
  handle_accept callback (failed ∷ answers) s =
      (s, logged Level.error (codes "accept4 failed") ∷ [])
  handle_accept callback (client fd ip port ∷ answers) s =
      let (s₁, es) = greet callback fd ip port s in
      let (s₂, later) = handle_accept callback answers s₁ in (s₂, es ++ later)

-- The descriptors that accept4 hands out before the loop returns.
abbrev pub handed : List Accepted → List ℕ
handed [] = []
handed (interrupted ∷ answers) = handed answers
handed (would_block ∷ answers) = []
handed (failed ∷ answers) = []
handed (client fd ip port ∷ answers) = fd ∷ handed answers

-- Calls of `close` on the descriptor.
abbrev pub closed_fds : List Effect → List ℕ
closed_fds [] = []
closed_fds (logged level text ∷ es) = closed_fds es
closed_fds (closed_fd fd ∷ es) = fd ∷ closed_fds es
