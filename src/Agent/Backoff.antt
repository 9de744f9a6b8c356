-- ===== src/Agent/Backoff.antt =====
-- The reconnect policy in the loop of src/agent/MonitorAgent.cpp.
use Prim.{tt}
use Prim.Native.Nat.{min}
use lmonitor.Base.{
  ℕ, suc, ◌+◌, ◌*◌, ◌^◌, ◌≤◌, ◌≡◌, refl, ap, sym, subst, ◌∙◌, true, false, List, [], ◌∷◌, ◌++◌,
  Option, none, some, arith, length,
}
use lmonitor.Base.Text.{Bytes}
use lmonitor.Agent.{
  is_connected, connect_to_server, Sent, ticks_per_second, Retry, start, is_due, reconnect,
  transmit,
}

-- Rounds in which the attempt fails.
unfoldable pub fail_all : List ℕ → Retry → Retry
fail_all [] r = r
fail_all (t ∷ ts) r = fail_all ts (reconnect t none r)

-- Each round comes when the next attempt is due.
abbrev pub AllDue : List ℕ → Retry → Type 0
AllDue [] r = Unit
AllDue (t ∷ ts) r = (is_due t r ≡ true) × AllDue ts (reconnect t none r)

reconnect_failed :
    (t : ℕ) (r : Retry)
    → is_due t r ≡ true
    → ((reconnect t none r).reconnect_delay ≡ min (r.reconnect_delay * 2) 30)
      × ((reconnect t none r).next_reconnect_time ≡ t + r.reconnect_delay * ticks_per_second)
unfolding reconnect connect_to_server is_due is_connected
reconnect_failed t r h = ground arith

doubled : (k : ℕ) → min (min (2 ^ k) 30 * 2) 30 ≡ min (2 ^ (suc k)) 30
doubled k = omega arith

fail_all-delay :
    (ts : List ℕ) (k : ℕ) (r : Retry)
    → r.reconnect_delay ≡ min (2 ^ k) 30
    → AllDue ts r
    → (fail_all ts r).reconnect_delay ≡ min (2 ^ (k + length ts)) 30
unfolding fail_all
fail_all-delay [] k r e d = e ∙ ap (λ n. min (2 ^ n) 30) (omega arith)
fail_all-delay (t ∷ ts) k r e d =
    let next : (reconnect t none r).reconnect_delay ≡ min (2 ^ (suc k)) 30 =
      (reconnect_failed t r d.0).0 ∙ ap (λ n. min (n * 2) 30) e ∙ doubled k in
    fail_all-delay ts (suc k) (reconnect t none r) next d.1 ∙ ap (λ n. min (2 ^ n) 30) (omega arith)

AllDue-init : (ts : List ℕ) (t : ℕ) (r : Retry) → AllDue (ts ++ t ∷ []) r → AllDue ts r
AllDue-init [] t r d = tt
AllDue-init (u ∷ ts) t r d = (d.0, AllDue-init ts t (reconnect u none r) d.1)

-- The last of some failed attempts sets the time of the next one.
fail_all-last :
    (ts : List ℕ) (t : ℕ) (r : Retry)
    → AllDue (ts ++ t ∷ []) r
    → (fail_all (ts ++ t ∷ []) r).next_reconnect_time
      ≡ t + (fail_all ts r).reconnect_delay * ticks_per_second
unfolding fail_all
fail_all-last [] t r d = (reconnect_failed t r d.0).1
fail_all-last (u ∷ ts) t r d = fail_all-last ts t (reconnect u none r) d.1

-- After n attempts in a row that have failed from the start of the agent on, the delay is min(2^n, 30)
-- seconds, and when the next attempt fails too, the one behind it is due that long after it.
pub start-fail_all :
    (now t : ℕ) (ts : List ℕ)
    → AllDue (ts ++ t ∷ []) (start now)
    → ((fail_all ts (start now)).reconnect_delay ≡ min (2 ^ length ts) 30)
      × ((fail_all (ts ++ t ∷ []) (start now)).next_reconnect_time
          ≡ t + min (2 ^ length ts) 30 * ticks_per_second)
start-fail_all now t ts d =
    let delay =
      fail_all-delay ts 0 (start now) (unfold start in refl) (AllDue-init ts t (start now) d)
      ∙ ap (λ n. min (2 ^ n) 30) (omega arith) in
    (delay, fail_all-last ts t (start now) d ∙ ap (λ n. t + n * ticks_per_second) delay)

-- The delay is between one second and thirty, and the next attempt of a disconnected agent is at
-- most thirty seconds ahead.
pub record IsPaced (now : ℕ) (r : Retry) : Type 0 where
  pub delay : (1 ≤ r.reconnect_delay) × (r.reconnect_delay ≤ 30)
  pub ahead : r.next_reconnect_time ≤ now + 30 * ticks_per_second

start-IsPaced : (now : ℕ) → IsPaced now (start now)
unfolding start
start-IsPaced now = record { delay = omega arith; ahead = omega arith }

reconnect-IsPaced :
    (now : ℕ) (attempt : Option ℕ) (r : Retry)
    → IsPaced now r
    → IsPaced now (reconnect now attempt r)
unfolding reconnect connect_to_server is_due is_connected
reconnect-IsPaced now attempt r p = record {
  delay = ground (arith, p.delay);
  ahead = ground (arith, p.delay, p.ahead);
}

transmit-IsPaced :
    (now later : ℕ) (answers : List Sent) (frame : Bytes) (r r' : Retry)
    → now ≤ later
    → IsPaced now r
    → (transmit later answers frame r).1 ≡ some r'
    → IsPaced later r'
unfolding transmit
transmit-IsPaced now later answers frame r r' l p e = record {
  delay = ground (arith, p.delay);
  ahead = ground (arith, p.ahead);
}

-- Rounds, one after the other, from the start of the agent on; the index is the time.
pub data Running (begin : ℕ) : ℕ → Retry → Type 0 where
  started : (r : Retry) → r ≡ start begin → Running begin begin r
  waited : (now later : ℕ) (r : Retry) → now ≤ later → Running begin now r → Running begin later r
  went :
      (now later : ℕ) (r r' : Retry) (attempt : Option ℕ) (answers : List Sent) (frame : Bytes)
      → now ≤ later
      → (transmit later answers frame (reconnect now attempt r)).1 ≡ some r'
      → Running begin now r
      → Running begin later r'

Running-IsPaced : (begin : ℕ) {now : ℕ} {r : Retry} → Running begin now r → IsPaced now r
Running-IsPaced begin (started r e) = subst (IsPaced begin) (sym e) (start-IsPaced begin)
Running-IsPaced begin (waited now later r l run) =
    let p = Running-IsPaced begin run in record { delay = p.delay; ahead = omega (arith, p.ahead) }
Running-IsPaced begin (went now later r r' attempt answers frame l e run) =
    transmit-IsPaced now later answers frame (reconnect now attempt r) r' l
      (reconnect-IsPaced now attempt r (Running-IsPaced begin run)) e

-- On a clock that never goes back, whatever `connect` and `send` have answered so far: when the agent is disconnected, a round that
-- begins thirty seconds later tries to connect, and is connected if the attempt succeeds.
pub Running-due :
    (begin now t fd : ℕ) (r : Retry)
    → Running begin now r
    → is_connected r.client ≡ false
    → now + 30 * ticks_per_second ≤ t
    → (is_due t r ≡ true) × (is_connected (reconnect t (some fd) r).client ≡ true)
unfolding is_due reconnect connect_to_server is_connected
Running-due begin now t fd r run off l =
    let p = Running-IsPaced begin run in (ground (arith, p.ahead), ground (arith, p.ahead))
