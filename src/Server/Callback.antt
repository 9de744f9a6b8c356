-- ===== src/Server/Callback.antt =====
-- The message callback of src/server/TcpServer.cpp and the queue of src/thread/ThreadPool.cpp.
use lmonitor.Base.{
  ℕ, zero, suc, ◌+◌, ◌≡◌, sym, ap, ◌∙◌, Bool, true, false, List, [], ◌∷◌, ◌++◌, some, arith, length,
  take, drop, drop-nil, take-nil, append-nil, append_assoc, length-append,
}
use lmonitor.TcpConnection.{Effect, delivered, closed, logged}
use lmonitor.ThreadPool.{Shared, try_submit}
use lmonitor.Server.{
  Log, queue_full, Task, parsing, adding_history, evaluating, storing, tracking, queueing, returned,
  tasks_of,
}

module _ {D : Type 0} where
  abbrev submitted : Effect → Shared (Task D) × Bool → Shared (Task D) × List Log
  submitted (delivered name message) (s, false) = (s, queue_full name ∷ [])
  submitted (delivered name message) (s, true) = (s, [])
  submitted (closed fd) (s, b) = (s, [])
  submitted (logged level text) (s, b) = (s, [])

  -- The message callback on what a connection does; only messages reach it.
  unfoldable pub on_message : Effect → Shared (Task D) → Shared (Task D) × List Log
  on_message (delivered name message) s =
      submitted (delivered name message) (try_submit (some (parsing name message)) s)
  on_message (closed fd) s = (s, [])
  on_message (logged level text) s = (s, [])

  unfoldable pub on_messages : List Effect → Shared (Task D) → Shared (Task D) × List Log
  unfolding on_message
  on_messages [] s = (s, [])
  on_messages (e ∷ es) s =
      let (s₁, logs) = on_message e s in let (s₂, later) = on_messages es s₁ in (s₂, logs ++ later)

  -- The warnings for tasks that were not accepted.
  abbrev pub warnings : List (Task D) → List Log
  warnings [] = []
  warnings (parsing name message ∷ ts) = queue_full name ∷ warnings ts
  warnings (adding_history name m ∷ ts) = warnings ts
  warnings (evaluating name m ∷ ts) = warnings ts
  warnings (storing name m ∷ ts) = warnings ts
  warnings (tracking name m ∷ ts) = warnings ts
  warnings (queueing name m ∷ ts) = warnings ts
  warnings (returned ∷ ts) = warnings ts

  submit_full :
      (t : Task D) (s : Shared (Task D))
      → 0 + length s.tasks ≡ s.max_queue_size
      → try_submit (some t) s ≡ (s, false)
  unfolding try_submit
  submit_full t s e = ground arith

  submit_room :
      (t : Task D) (s : Shared (Task D)) (room : ℕ)
      → s.stopping ≡ false
      → suc room + length s.tasks ≡ s.max_queue_size
      → try_submit (some t) s ≡ (record s { tasks = s.tasks ++ t ∷ [] }, true)
  unfolding try_submit
  submit_room t s room go e = ground arith

  -- A burst of messages that no worker interrupts: the queue takes as many as it has room for, in
  -- order, and every other one is dropped with a warning.
  pub on_messages-burst :
      (es : List Effect) (s : Shared (Task D)) (room : ℕ)
      → s.stopping ≡ false
      → room + length s.tasks ≡ s.max_queue_size
      → on_messages es s ≡ (
        record s { tasks = s.tasks ++ take room (tasks_of es) },
        warnings (drop room (tasks_of es)),
      )
  unfolding on_messages tasks_of
  on_messages-burst [] s room go e =
      rw (take-nil {A = Task D} room, drop-nil {A = Task D} room)
        (ap (λ ts. (record s { tasks = ts }, [])) (sym (append-nil s.tasks)))
  on_messages-burst (delivered name message ∷ es) s zero go e =
      rw (submit_full (parsing name message) s e)
        (ap (λ r. (r.0, queue_full name ∷ r.1)) (on_messages-burst es s zero go e))
  on_messages-burst (delivered name message ∷ es) s (suc room) go e =
      let t = parsing name message in
      rw (submit_room t s room go e) (
        on_messages-burst es (record s { tasks = s.tasks ++ t ∷ [] }) room go
          (omega (arith, e, length-append s.tasks (t ∷ [])))
        ∙ ap (λ ts. (record s { tasks = ts }, warnings (drop room (tasks_of es))))
            (append_assoc s.tasks (t ∷ []) (take room (tasks_of es))))
  on_messages-burst (closed fd ∷ es) s room go e = on_messages-burst es s room go e
  on_messages-burst (logged level text ∷ es) s room go e = on_messages-burst es s room go e
