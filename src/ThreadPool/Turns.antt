-- ===== src/ThreadPool/Turns.antt =====
-- The steps of the workers of src/thread/ThreadPool.cpp, one at a time, and what they count.
use lmonitor.Base.{
  ℕ, zero, suc, ◌≡◌, refl, ap, ◌∙◌, ◌⊎◌, inl, Bool, true, false, List, [], ◌∷◌, arith,
}
use lmonitor.ThreadPool.{
  Worker, waiting, asleep, woken, notify_all, wake_at, running, exited, Shared, Happening, nothing,
  took, ended, wake, turn, turn_at, replicate,
}

module _ {T : Type 0} where
  -- Workers that run a task, and whether a worker has returned.
  abbrev pub running_count : List (Worker T) → ℕ
  running_count [] = 0
  running_count (waiting ∷ ws) = running_count ws
  running_count (asleep ∷ ws) = running_count ws
  running_count (running t ∷ ws) = suc (running_count ws)
  running_count (exited ∷ ws) = running_count ws

  abbrev pub has_exited : List (Worker T) → Bool
  has_exited [] = false
  has_exited (waiting ∷ ws) = has_exited ws
  has_exited (asleep ∷ ws) = has_exited ws
  has_exited (running t ∷ ws) = has_exited ws
  has_exited (exited ∷ ws) = true

pub none_runs :
    (T : Type 0) (n : ℕ) → running_count {T = T} (replicate {A = Worker T} n waiting) ≡ 0
none_runs T zero = refl
none_runs T (suc n) = none_runs T n

pub none_exited :
    (T : Type 0) (n : ℕ) → has_exited {T = T} (replicate {A = Worker T} n waiting) ≡ false
none_exited T zero = refl
none_exited T (suc n) = none_exited T n

module _ {T : Type 0} where
  -- What a worker's step does to the shared fields.
  abbrev pub Moves : Shared T → Happening T → Shared T → Type 0
  Moves s nothing s' = s' ≡ s
  Moves s (took t) s' =
      (s.tasks ≡ t ∷ s'.tasks) × (s'.max_queue_size ≡ s.max_queue_size) × (s'.stopping ≡ s.stopping)
  Moves s (ended t) s' = s' ≡ s

  abbrev pub Counts : ℕ → Happening T → ℕ → Type 0
  Counts n nothing n' = n' ≡ n
  Counts n (took t) n' = n' ≡ suc n
  Counts n (ended t) n' = n ≡ suc n'

  -- A step of one worker: the shared fields, the count, and when the worker returns.
  pub record IsTurn (ws : List (Worker T)) (s : Shared T) (ws' : List (Worker T)) (s' : Shared T)
      (did : Happening T) : Type 0 where
    pub moves : Moves s did s'
    pub counts : Counts (running_count ws) did (running_count ws')
    pub exits :
        has_exited ws' ≡ true → (has_exited ws ≡ true) ⊎ ((s'.stopping ≡ true) × (s'.tasks ≡ []))

  wake-IsTurn :
      (ts : List T) (ws : List (Worker T)) (s : Shared T)
      → s.tasks ≡ ts
      → let t = wake ts s in IsTurn (waiting ∷ ws) s (t.worker ∷ ws) t.after t.did
  wake-IsTurn [] ws s e = record { moves = refl; counts = ground arith; exits = ground arith }
  wake-IsTurn (t ∷ ts) ws s e = record {
    moves = (e, refl, refl);
    counts = refl;
    exits = λ h. inl h;
  }

  turn-IsTurn :
      (w : Worker T) (ws : List (Worker T)) (s : Shared T)
      → let t = turn w s in IsTurn (w ∷ ws) s (t.worker ∷ ws) t.after t.did
  unfolding turn
  turn-IsTurn waiting ws s = wake-IsTurn s.tasks ws s refl
  turn-IsTurn (running t) ws s = record { moves = refl; counts = refl; exits = λ h. inl h }
  turn-IsTurn asleep ws s = record { moves = refl; counts = ground arith; exits = λ h. inl h }
  turn-IsTurn exited ws s = record { moves = refl; counts = refl; exits = λ h. inl refl }

  cons-IsTurn :
      (w : Worker T) (ws : List (Worker T)) (s : Shared T) (ws' : List (Worker T)) (s' : Shared T)
      (did : Happening T)
      → IsTurn ws s ws' s' did
      → IsTurn (w ∷ ws) s (w ∷ ws') s' did
  cons-IsTurn waiting ws s ws' s' did t = record {
    moves = t.moves;
    counts = t.counts;
    exits = t.exits;
  }
  cons-IsTurn asleep ws s ws' s' did t = record {
    moves = t.moves;
    counts = t.counts;
    exits = t.exits;
  }
  cons-IsTurn exited ws s ws' s' did t = record {
    moves = t.moves;
    counts = t.counts;
    exits = λ h. inl refl;
  }
  cons-IsTurn (running a) ws s ws' s' nothing t = record {
    moves = t.moves;
    counts = ap suc t.counts;
    exits = t.exits;
  }
  cons-IsTurn (running a) ws s ws' s' (took b) t = record {
    moves = t.moves;
    counts = ap suc t.counts;
    exits = t.exits;
  }
  cons-IsTurn (running a) ws s ws' s' (ended b) t = record {
    moves = t.moves;
    counts = ap suc t.counts;
    exits = t.exits;
  }

  pub turn_at-IsTurn :
      (i : ℕ) (ws : List (Worker T)) (s : Shared T)
      → let r = turn_at i ws s in IsTurn ws s r.0 r.1 r.2
  unfolding turn_at
  turn_at-IsTurn zero [] s = record { moves = refl; counts = refl; exits = λ h. inl h }
  turn_at-IsTurn (suc i) [] s = record { moves = refl; counts = refl; exits = λ h. inl h }
  turn_at-IsTurn zero (w ∷ ws) s = turn-IsTurn w ws s
  turn_at-IsTurn (suc i) (w ∷ ws) s =
      let r = turn_at i ws s in cons-IsTurn w ws s r.0 r.1 r.2 (turn_at-IsTurn i ws s)

  -- A notification leaves the counts as they are.
  woken-counts :
      (w : Worker T) (ws : List (Worker T))
      → (running_count (woken w ∷ ws) ≡ running_count (w ∷ ws))
        × (has_exited (woken w ∷ ws) ≡ has_exited (w ∷ ws))
  woken-counts waiting ws = (refl, refl)
  woken-counts asleep ws = (refl, refl)
  woken-counts (running t) ws = (refl, refl)
  woken-counts exited ws = (refl, refl)

  cons-counts :
      (w : Worker T) (ws ws' : List (Worker T))
      → (running_count ws' ≡ running_count ws) × (has_exited ws' ≡ has_exited ws)
      → (running_count (w ∷ ws') ≡ running_count (w ∷ ws))
        × (has_exited (w ∷ ws') ≡ has_exited (w ∷ ws))
  cons-counts waiting ws ws' h = h
  cons-counts asleep ws ws' h = h
  cons-counts (running t) ws ws' h = (ap suc h.0, h.1)
  cons-counts exited ws ws' h = (h.0, refl)

  pub wake_at-counts :
      (i : ℕ) (ws : List (Worker T))
      → (running_count (wake_at i ws) ≡ running_count ws)
        × (has_exited (wake_at i ws) ≡ has_exited ws)
  unfolding wake_at
  wake_at-counts zero [] = (refl, refl)
  wake_at-counts (suc i) [] = (refl, refl)
  wake_at-counts zero (w ∷ ws) = woken-counts w ws
  wake_at-counts (suc i) (w ∷ ws) = cons-counts w ws (wake_at i ws) (wake_at-counts i ws)

  pub notify_all-counts :
      (ws : List (Worker T))
      → (running_count (notify_all ws) ≡ running_count ws)
        × (has_exited (notify_all ws) ≡ has_exited ws)
  unfolding notify_all
  notify_all-counts [] = (refl, refl)
  notify_all-counts (w ∷ ws) =
      let here = woken-counts w (notify_all ws) in
      let later = cons-counts w ws (notify_all ws) (notify_all-counts ws) in
      (here.0 ∙ later.0, here.1 ∙ later.1)
