-- ===== src/Agent/Sampling/Stream.antt =====
-- An agent that stays connected: what the rounds of `run` write to the socket.
use lmonitor.Base.{
  ℕ, ◌≤◌, ◌≡◌, refl, ap, ◌∙◌, true, List, [], ◌∷◌, ◌++◌, map, Option, some, ok, inl, inr, All,
  length, arith,
}
use lmonitor.Base.Text.{Bytes}
use lmonitor.Float.{Float}
use lmonitor.Model.{SystemMetrics}
use lmonitor.Serializer.Writer.{serialize}
use lmonitor.FrameCodec.{max_frame_size}
use lmonitor.FrameCodec.RoundTrip.{frame, encode_lem}
use lmonitor.FrameCodec.Stream.{frames}
use lmonitor.Collector.Process.{ProcessInfo}
use lmonitor.Agent.{Sent, Retry, is_connected, is_due, reconnect, transmit}
use lmonitor.Agent.Sending.{Progresses, taken, send_all-Progresses}
use lmonitor.Agent.Sampling.{
  MonitorAgent, Snapshot, Round, stopped, measure, frame_of, framed, go_on, run,
}

transmit_whole :
    (later : ℕ) (answers : List Sent) (bytes : Bytes) (r : Retry)
    → is_connected r.client ≡ true
    → Progresses answers
    → length bytes ≤ taken answers
    → transmit later answers bytes r ≡ (bytes, some r)
unfolding transmit
transmit_whole later answers bytes r on p h =
    rw (send_all-Progresses answers bytes r.client on p h, transmit, on) refl

reconnect_idle :
    (now : ℕ) (attempt : _) (r : Retry) → is_connected r.client ≡ true → reconnect now attempt r ≡ r
unfolding reconnect is_due
reconnect_idle now attempt r on = rw (on, reconnect) refl

module _ {D : Type 0} (F : Float D) (sort : List (ProcessInfo D) → List (ProcessInfo D))
    (agent : MonitorAgent D) where
  -- The metrics of the rounds, each from the readings of its own round and of the one before.
  abbrev pub Measured : Snapshot → List (Round D) → List (SystemMetrics D) → Type 0
  Measured previous [] [] = Unit
  Measured previous [] (m ∷ ms) = ⊥
  Measured previous (x ∷ xs) [] = ⊥
  Measured previous (x ∷ xs) (m ∷ ms) =
      (measure F sort agent previous x ≡ ok m) × Measured x.current xs ms

  -- `send` goes on taking bytes in each round until the frame is out.
  abbrev pub Takes : List (Round D) → List (SystemMetrics D) → Type 0
  Takes (x ∷ xs) (m ∷ ms) =
      (Progresses x.answers × (length (frame (serialize F m)) ≤ taken x.answers)) × Takes xs ms
  Takes _ _ = Unit

  abbrev pub last_reading : Snapshot → List (Round D) → Snapshot
  last_reading previous [] = previous
  last_reading previous (x ∷ xs) = last_reading x.current xs

  frame_of-ok :
      (previous : Snapshot) (x : Round D) (m : SystemMetrics D)
      → measure F sort agent previous x ≡ ok m
      → length (serialize F m) ≤ max_frame_size
      → frame_of F sort agent previous x ≡ ok (frame (serialize F m))
  unfolding frame_of
  frame_of-ok previous x m e h =
      rw (e, frame_of)
        (elim (encode_lem (serialize F m)) [
          | inl (long, refused) ↦ absurd (omega (arith, long, h))
          | inr (fits, taken) ↦ rw taken refl
        ])

  run_step :
      (x : Round D) (xs : List (Option (Round D))) (previous : Snapshot) (r : Retry) (bytes : Bytes)
      → frame_of F sort agent previous x ≡ ok bytes
      → is_connected r.client ≡ true
      → Progresses x.answers
      → length bytes ≤ taken x.answers
      → run F sort agent (some x ∷ xs) previous r
        ≡ (let (later, end) = run F sort agent xs x.current r in (bytes ++ later, end))
  unfolding run
  run_step x xs previous r bytes e on p h =
      rw (e, run, framed)
        (ap (λ o. go_on o (run F sort agent xs x.current))
          (ap (transmit x.failed_at x.answers bytes) (reconnect_idle x.reconnect_now x.attempt r on)
            ∙ transmit_whole x.failed_at x.answers bytes r on p h))

  -- While the agent is connected and `send` goes on taking bytes, the rounds write the frames of
  -- their metrics to the socket, each whole and in order, and the metrics of a round are those
  -- between its readings and the ones of the round before.
  pub run-frames :
      (xs : List (Round D)) (ms : List (SystemMetrics D)) (previous : Snapshot) (r : Retry)
      → Measured previous xs ms
      → All (λ m. length (serialize F m) ≤ max_frame_size) ms
      → is_connected r.client ≡ true
      → Takes xs ms
      → run F sort agent (map some xs) previous r
        ≡ (frames (map (serialize F) ms), stopped (last_reading previous xs) r)
  unfolding run
  run-frames [] [] previous r e h on t = refl
  run-frames [] (m ∷ ms) previous r e h on t = absurd e
  run-frames (x ∷ xs) [] previous r e h on t = absurd e
  run-frames (x ∷ xs) (m ∷ ms) previous r e h on t =
      run_step x (map some xs) previous r (frame (serialize F m)) (frame_of-ok previous x m e.0 h.0)
        on t.0.0 t.0.1
      ∙ ap (λ p. (frame (serialize F m) ++ p.0, p.1)) (run-frames xs ms x.current r e.1 h.1 on t.1)
