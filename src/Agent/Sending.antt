-- ===== src/Agent/Sending.antt =====
-- `TcpClient::sendAll` of src/network/TcpClient.cpp.
use lmonitor.Base.{
  ℕ, zero, suc, ◌+◌, ◌≤◌, ◌<◌, ◌≡◌, refl, ap, sym, ◌∙◌, true, false, Bool, List, [], ◌∷◌, ◌++◌,
  Option, none, some, arith, take, drop, length, append_assoc, take-append-drop, length-drop,
}
use lmonitor.Base.Text.{Bytes}
use lmonitor.Agent.{
  TcpClient, is_connected, disconnect, Sent, accepted, interrupted, failed, send_loop, send_all,
}

-- `sendAll` returned true, and everything went out; or it returned false, what went out is a proper
-- first part of the frame, and the socket is closed; or it is still in `send`.
pub data Outcome (frame : Bytes) (c : TcpClient) : Bytes × Option (Bool × TcpClient) → Type 0 where
  whole : (r : Bytes × Option (Bool × TcpClient)) → r ≡ (frame, some (true, c)) → Outcome frame c r
  broken :
      (r : Bytes × Option (Bool × TcpClient)) (b : ℕ) (rest : Bytes)
      → r.1 ≡ some (false, disconnect c)
      → frame ≡ r.0 ++ b ∷ rest
      → Outcome frame c r
  busy :
      (r : Bytes × Option (Bool × TcpClient)) (b : ℕ) (rest : Bytes)
      → r.1 ≡ none
      → frame ≡ r.0 ++ b ∷ rest
      → Outcome frame c r

more :
    (b n : ℕ) (left : Bytes) (c : TcpClient) (r : Bytes × Option (Bool × TcpClient))
    → Outcome (drop n left) c r
    → Outcome (b ∷ left) c (b ∷ (take n left ++ r.0), r.1)
more b n left c r (whole _ e) = whole _ (
    ap (λ (q : Bytes × Option (Bool × TcpClient)). (b ∷ (take n left ++ q.0), q.1)) e
    ∙ ap (λ s. (b ∷ s, some (true, c))) (take-append-drop n left))
more b n left c r (broken _ x rest e f) = broken _ x rest e (
    ap (◌∷◌ b) (
      sym (take-append-drop n left)
      ∙ ap (λ s. take n left ++ s) f
      ∙ sym (append_assoc (take n left) r.0 (x ∷ rest))))
more b n left c r (busy _ x rest e f) = busy _ x rest e (
    ap (◌∷◌ b) (
      sym (take-append-drop n left)
      ∙ ap (λ s. take n left ++ s) f
      ∙ sym (append_assoc (take n left) r.0 (x ∷ rest))))

send_loop-Outcome :
    (answers : List Sent) (left : Bytes) (c : TcpClient) → Outcome left c (send_loop answers left c)
unfolding send_loop
send_loop-Outcome [] [] c = whole _ refl
send_loop-Outcome (a ∷ answers) [] c = whole _ refl
send_loop-Outcome [] (b ∷ left) c = busy _ b left refl refl
send_loop-Outcome (interrupted ∷ answers) (b ∷ left) c = send_loop-Outcome answers (b ∷ left) c
send_loop-Outcome (failed ∷ answers) (b ∷ left) c = broken _ b left refl refl
send_loop-Outcome (accepted zero ∷ answers) (b ∷ left) c = broken _ b left refl refl
send_loop-Outcome (accepted (suc n) ∷ answers) (b ∷ left) c =
    more b n left c (send_loop answers (drop n left) c) (send_loop-Outcome answers (drop n left) c)

-- On a connected client, whatever `send` answers: `sendAll` returns true exactly when the whole frame
-- went out, once and in order; when it returns false, less than the frame went out and the client is
-- disconnected; and until then it is still in `send`.
pub send_all-Outcome :
    (answers : List Sent) (frame : Bytes) (c : TcpClient)
    → is_connected c ≡ true
    → Outcome frame c (send_all answers frame c)
unfolding send_all
send_all-Outcome answers frame c h = rw h (send_loop-Outcome answers frame c)

-- The bytes that the answers take, when none of them is an error.
abbrev pub taken : List Sent → ℕ
taken [] = 0
taken (accepted n ∷ answers) = n + taken answers
taken (interrupted ∷ answers) = taken answers
taken (failed ∷ answers) = taken answers

-- Each answer is EINTR or takes a byte at least.
abbrev pub Progresses : List Sent → Type 0
Progresses [] = Unit
Progresses (accepted n ∷ answers) = (0 < n) × Progresses answers
Progresses (interrupted ∷ answers) = Progresses answers
Progresses (failed ∷ answers) = ⊥

send_loop-Progresses :
    (answers : List Sent) (left : Bytes) (c : TcpClient)
    → Progresses answers
    → length left ≤ taken answers
    → (send_loop answers left c).1 ≡ some (true, c)
unfolding send_loop
send_loop-Progresses [] [] c p h = refl
send_loop-Progresses (a ∷ answers) [] c p h = refl
send_loop-Progresses [] (b ∷ left) c p h = absurd (omega arith)
send_loop-Progresses (interrupted ∷ answers) (b ∷ left) c p h =
    send_loop-Progresses answers (b ∷ left) c p h
send_loop-Progresses (failed ∷ answers) (b ∷ left) c p h = absurd p
send_loop-Progresses (accepted zero ∷ answers) (b ∷ left) c p h = absurd (omega (arith, p.0))
send_loop-Progresses (accepted (suc n) ∷ answers) (b ∷ left) c p h =
    send_loop-Progresses answers (drop n left) c p.1 (omega (arith, length-drop n left))

returned_true :
    (frame : Bytes) (c : TcpClient) (r : Bytes × Option (Bool × TcpClient))
    → Outcome frame c r
    → r.1 ≡ some (true, c)
    → r ≡ (frame, some (true, c))
returned_true frame c r (whole _ e) t = e
returned_true frame c r (broken _ b rest e f) t = cc
returned_true frame c r (busy _ b rest e f) t = cc

-- If `send` goes on taking bytes, in pieces of any size and with interruptions, and has taken as many
-- as the frame has, `sendAll` has returned true.
pub send_all-Progresses :
    (answers : List Sent) (frame : Bytes) (c : TcpClient)
    → is_connected c ≡ true
    → Progresses answers
    → length frame ≤ taken answers
    → send_all answers frame c ≡ (frame, some (true, c))
unfolding send_all
send_all-Progresses answers frame c on p h = rw on (
    returned_true frame c (send_loop answers frame c) (send_loop-Outcome answers frame c)
      (send_loop-Progresses answers frame c p h))
