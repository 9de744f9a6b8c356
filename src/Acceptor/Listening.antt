-- ===== src/Acceptor/Listening.antt =====
-- The listening socket: `createListeningSocket`, the constructor and the destructor of
-- src/reactor/Acceptor.cpp.
use lmonitor.Base.{
  ℕ, ◌≡◌, Bool, List, [], ◌∷◌, ◌++◌, Option, none, some, Result, ok, err, if◌then◌else◌, arith,
}
use lmonitor.EventLoop.Channels.{Control, ChannelError, Interest, add_channel, remove_channel}
use lmonitor.Acceptor.{Effect, closed_fd, closed_fds}

pub data AcceptorError : Type 0 where
  no_socket no_reuse not_bound not_listening : AcceptorError
  not_registered : ChannelError → AcceptorError

-- What the system calls answer.
pub record Answers : Type 0 where
  pub socket : Option ℕ
  pub reuse : Bool
  pub bound : Bool
  pub listening : Bool
  pub registered : Control

abbrev refuse : ℕ → AcceptorError → Result AcceptorError ℕ × List Effect
refuse fd e = (err e, closed_fd fd ∷ [])

unfoldable pub create_listening_socket : Answers → Result AcceptorError ℕ × List Effect
create_listening_socket a = elim a.socket [
  | none ↦ (err no_socket, [])
  | some fd ↦
      if a.reuse
      then if a.bound
        then if a.listening then (ok fd, []) else refuse fd not_listening
        else refuse fd not_bound
      else refuse fd no_reuse
]

abbrev register :
    ℕ → Result ChannelError Interest → Result AcceptorError (ℕ × Interest) × List Effect
register fd (ok interest) = (ok (fd, interest), [])
register fd (err e) = (err (not_registered e), closed_fd fd ∷ [])

abbrev listen_on :
    Control
    → Interest
    → Result AcceptorError ℕ × List Effect
    → Result AcceptorError (ℕ × Interest) × List Effect
listen_on answer s (err e, es) = (err e, es)
listen_on answer s (ok fd, es) =
    let (r, fs) = register fd (add_channel answer (some (record { fd = fd; events = 1 })) s) in
    (r, es ++ fs)

-- The constructor: the listening descriptor, or the exception.
unfoldable pub create : Answers → Interest → Result AcceptorError (ℕ × Interest) × List Effect
unfolding create_listening_socket
create a s = listen_on a.registered s (create_listening_socket a)

abbrev kept : Interest → Result ChannelError Interest → Interest
kept s (ok t) = t
kept s (err e) = s

-- The destructor.
unfoldable pub destroy : Control → ℕ → Interest → Interest × List Effect
destroy answer fd s =
    (kept s (remove_channel answer (some (record { fd = fd; events = 1 })) s), closed_fd fd ∷ [])

abbrev pub opened : Option ℕ → List ℕ
opened none = []
opened (some fd) = fd ∷ []

-- The descriptors that are still open: the one of the acceptor, if there is one.
abbrev pub owned : Result AcceptorError (ℕ × Interest) → List ℕ
owned (ok (fd, s)) = fd ∷ []
owned (err e) = []

-- Whatever the system calls answer, the descriptor that `socket` gives is either closed by the
-- constructor, which then throws, or belongs to the acceptor.
pub create-owned :
    (a : Answers) (s : Interest)
    → let (r, es) = create a s in closed_fds es ++ owned r ≡ opened a.socket
unfolding create add_channel
create-owned a s = ground arith
