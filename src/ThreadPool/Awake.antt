-- ===== src/ThreadPool/Awake.antt =====
-- The workers of src/thread/ThreadPool.cpp that the notification of `stop` has woken, and how far each
-- is from its end.
use lmonitor.Base.{
  ℕ, zero, suc, ◌+◌, ◌*◌, ◌<◌, ◌≡◌, refl, ap, ◌⊎◌, inl, inr, Bool, true, false, List, [], ◌∷◌,
  arith, length,
}
use lmonitor.ThreadPool.{
  Worker, waiting, asleep, running, exited, Shared, wake, turn, turn_at, woken, notify_all, wake_at,
}
use lmonitor.ThreadPool.Shutdown.{all_exited}

module _ {T : Type 0} where
  -- No worker sleeps on the condition variable.
  abbrev pub all_awake : List (Worker T) → Bool
  all_awake [] = true
  all_awake (waiting ∷ ws) = all_awake ws
  all_awake (asleep ∷ ws) = false
  all_awake (running t ∷ ws) = all_awake ws
  all_awake (exited ∷ ws) = all_awake ws

  -- The steps that a stopping pool has left at most.
  abbrev weight : Worker T → ℕ
  weight waiting = 1
  weight asleep = 1
  weight (running t) = 2
  weight exited = 0

  abbrev pub weights : List (Worker T) → ℕ
  weights [] = 0
  weights (w ∷ ws) = weight w + weights ws

  abbrev pub measure : List (Worker T) → Shared T → ℕ
  measure ws s = weights ws + 2 * length s.tasks

  -- The worker at the index has a step to make: it has not returned, and does not sleep.
  abbrev pub can_step : ℕ → List (Worker T) → Bool
  can_step i [] = false
  can_step zero (waiting ∷ ws) = true
  can_step zero (asleep ∷ ws) = false
  can_step zero (running t ∷ ws) = true
  can_step zero (exited ∷ ws) = false
  can_step (suc i) (w ∷ ws) = can_step i ws

  pub notify_all-all_awake : (ws : List (Worker T)) → all_awake (notify_all ws) ≡ true
  unfolding notify_all
  notify_all-all_awake [] = refl
  notify_all-all_awake (waiting ∷ ws) = notify_all-all_awake ws
  notify_all-all_awake (asleep ∷ ws) = notify_all-all_awake ws
  notify_all-all_awake (running t ∷ ws) = notify_all-all_awake ws
  notify_all-all_awake (exited ∷ ws) = notify_all-all_awake ws

  pub notify_all-weights : (ws : List (Worker T)) → weights (notify_all ws) ≡ weights ws
  unfolding notify_all
  notify_all-weights [] = refl
  notify_all-weights (waiting ∷ ws) = ap (λ n. 1 + n) (notify_all-weights ws)
  notify_all-weights (asleep ∷ ws) = ap (λ n. 1 + n) (notify_all-weights ws)
  notify_all-weights (running t ∷ ws) = ap (λ n. 2 + n) (notify_all-weights ws)
  notify_all-weights (exited ∷ ws) = ap (λ n. 0 + n) (notify_all-weights ws)

  -- Where no worker sleeps, a notification changes nothing.
  awake-head :
      (w : Worker T) (ws : List (Worker T))
      → all_awake (w ∷ ws) ≡ true
      → (woken w ≡ w) × (all_awake ws ≡ true)
  awake-head waiting ws h = (refl, h)
  awake-head asleep ws h = cc
  awake-head (running t) ws h = (refl, h)
  awake-head exited ws h = (refl, h)

  pub wake_at-awake : (i : ℕ) (ws : List (Worker T)) → all_awake ws ≡ true → wake_at i ws ≡ ws
  unfolding wake_at
  wake_at-awake zero [] h = refl
  wake_at-awake (suc i) [] h = refl
  wake_at-awake zero (w ∷ ws) h = ap (λ v. v ∷ ws) (awake-head w ws h).0
  wake_at-awake (suc i) (w ∷ ws) h = ap (◌∷◌ w) (wake_at-awake i ws (awake-head w ws h).1)

  -- A step of a worker in a stopping pool where no worker sleeps.
  pub record Descends (i : ℕ) (ws : List (Worker T)) (s : Shared T) (ws' : List (Worker T))
      (s' : Shared T) : Type 0 where
    pub still : s'.stopping ≡ true
    pub awake : all_awake ws' ≡ true
    pub falls : can_step i ws ≡ true → measure ws' s' < measure ws s
    pub stays : can_step i ws ≡ false → measure ws' s' ≡ measure ws s

  wake-Descends :
      (ts : List T) (ws : List (Worker T)) (s : Shared T)
      → s.tasks ≡ ts
      → s.stopping ≡ true
      → all_awake ws ≡ true
      → let t = wake ts s in Descends zero (waiting ∷ ws) s (t.worker ∷ ws) t.after
  wake-Descends [] ws s e h a = record {
    still = h;
    awake = rw h a;
    falls = λ c. rw h (omega arith);
    stays = λ c. cc;
  }
  wake-Descends (t ∷ ts) ws s e h a = record {
    still = h;
    awake = a;
    falls = λ c. omega (arith, ap length e);
    stays = λ c. cc;
  }

  cons-awake :
      (w : Worker T) (ws ws' : List (Worker T))
      → all_awake (w ∷ ws) ≡ true
      → all_awake ws' ≡ true
      → all_awake (w ∷ ws') ≡ true
  cons-awake waiting ws ws' h k = k
  cons-awake asleep ws ws' h k = cc
  cons-awake (running t) ws ws' h k = k
  cons-awake exited ws ws' h k = k

  pub turn_at-Descends :
      (i : ℕ) (ws : List (Worker T)) (s : Shared T)
      → s.stopping ≡ true
      → all_awake ws ≡ true
      → let r = turn_at i ws s in Descends i ws s r.0 r.1
  unfolding turn_at turn
  turn_at-Descends zero [] s h a = record {
    still = h;
    awake = a;
    falls = λ e. cc;
    stays = λ e. refl;
  }
  turn_at-Descends (suc i) [] s h a = record {
    still = h;
    awake = a;
    falls = λ e. cc;
    stays = λ e. refl;
  }
  turn_at-Descends zero (exited ∷ ws) s h a = record {
    still = h;
    awake = a;
    falls = λ e. cc;
    stays = λ e. refl;
  }
  turn_at-Descends zero (asleep ∷ ws) s h a = cc
  turn_at-Descends zero (running t ∷ ws) s h a = record {
    still = h;
    awake = a;
    falls = λ e. omega arith;
    stays = λ e. cc;
  }
  turn_at-Descends zero (waiting ∷ ws) s h a = wake-Descends s.tasks ws s refl h a
  turn_at-Descends (suc i) (w ∷ ws) s h a =
      let d = turn_at-Descends i ws s h (awake-head w ws a).1 in
      record {
        still = d.still;
        awake = cons-awake w ws _ a d.awake;
        falls = λ e. omega (arith, d.falls e);
        stays = λ e. omega (arith, d.stays e);
      }

  pub any_alive :
      (ws : List (Worker T))
      → all_awake ws ≡ true
      → (all_exited ws ≡ true) ⊎ ((i : ℕ) × (can_step i ws ≡ true))
  any_alive [] a = inl refl
  any_alive (waiting ∷ ws) a = inr (0, refl)
  any_alive (asleep ∷ ws) a = cc
  any_alive (running t ∷ ws) a = inr (0, refl)
  any_alive (exited ∷ ws) a = elim (any_alive ws a) [ inl h ↦ inl h | inr (i, h) ↦ inr (suc i, h) ]
