-- ===== src/Http/Thread.antt =====
-- The thread of the HTTP server: `start`, `stop` and `run` of src/http/HttpServer.cpp.
use lmonitor.Base.{ℕ, Bool, true, false, List, [], ◌∷◌, ◌++◌, Option, none, some, if◌then◌else◌}
use lmonitor.Base.Text.{Bytes, codes}
use lmonitor.Base.Decimal.{to_string}
use lmonitor.Logger.{Level}

pub record HttpThread : Type 0 where
  pub running : Bool
  pub listen_fd : Option ℕ
  -- `thread_.joinable()`
  pub joinable : Bool

pub data Effect : Type 0 where
  handled closed_fd shut_down : ℕ → Effect
  logged : Level → Bytes → Effect
  joined : Effect

unfoldable pub create : HttpThread
create = record { running = false; listen_fd = none; joinable = false }

-- The assignment to a std::thread that is joinable calls std::terminate: `none`.
unfoldable pub start : HttpThread → Option HttpThread
start s =
    if s.running
    then some s
    else if s.joinable
    then none
    else some (record s { running = true; joinable = true })

abbrev pub close_listen : Option ℕ → List Effect
close_listen none = []
close_listen (some fd) = shut_down fd ∷ closed_fd fd ∷ []

unfoldable pub stop : HttpThread → HttpThread × List Effect
stop s = (
  record { running = false; listen_fd = none; joinable = false },
  close_listen s.listen_fd ++ (if s.joinable then joined ∷ [] else []),
)

-- An answer of accept4.
pub data Accepted : Type 0 where
  client : ℕ → Accepted
  interrupted failed : Accepted

-- `while (running_)`: each round reads the flag, and then has an answer.
unfoldable pub accept_loop : List (Bool × Accepted) → List Effect
accept_loop [] = []
accept_loop ((running, answer) ∷ rounds) =
    let later = accept_loop rounds in
    if running
    then elim answer [
      | client fd ↦ handled fd ∷ closed_fd fd ∷ later
      | interrupted ↦ later
      | failed ↦ []
    ]
    else []

-- Whether the loop ends in these rounds; if not, it waits in accept4.
unfoldable pub leaves : List (Bool × Accepted) → Bool
leaves [] = false
leaves ((running, answer) ∷ rounds) =
    let later = leaves rounds in
    if running
    then elim answer [ client fd ↦ later | interrupted ↦ later | failed ↦ true ]
    else true

-- What `socket`, `bind` and `listen` answer.
pub record Setup : Type 0 where
  pub socket : Option ℕ
  pub bound : Bool
  pub listening : Bool

-- The message of the exception.
abbrev pub thrown : Bytes → HttpThread → HttpThread × List Effect
thrown what s = (record s { running = false }, logged Level.error what ∷ [])

unfoldable pub run : ℕ → Setup → List (Bool × Accepted) → HttpThread → HttpThread × List Effect
unfolding accept_loop leaves
run port setup rounds s = elim setup.socket [
  | none ↦ thrown (codes "HTTP socket failed") (record s { listen_fd = none })
  | some fd ↦
      let s₁ = record s { listen_fd = some fd } in
      if setup.bound
      then if setup.listening
        then (
          record s₁ { running = if leaves rounds then false else s.running },
          logged Level.info (codes "HTTP listening on port " ++ to_string port)
              ∷ accept_loop rounds,
        )
        else thrown (codes "HTTP listen failed") s₁
      else thrown (codes "HTTP bind failed") s₁
]
