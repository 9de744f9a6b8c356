-- ===== src/Http/Sending.antt =====
-- `HttpServer::sendAll` of src/http/HttpServer.cpp, beside `TcpClient::sendAll` of
-- src/network/TcpClient.cpp.
use lmonitor.Base.{
  zero, suc, ◌≡◌, refl, ap, Bool, true, false, List, [], ◌∷◌, ◌++◌, Option, none, some, take, drop,
}
use lmonitor.Base.Text.{Bytes}
use lmonitor.Agent as Agent
use lmonitor.Agent.{TcpClient, Sent, accepted, interrupted, failed, is_connected, send_loop}

-- The bytes that went out, and the result, or `none` if the last `send` has not returned.
unfoldable pub send_all : List Sent → Bytes → Bytes × Option Bool
send_all answers [] = ([], some true)
send_all [] (b ∷ left) = ([], none)
send_all (interrupted ∷ answers) (b ∷ left) = send_all answers (b ∷ left)
send_all (failed ∷ answers) (b ∷ left) = ([], some false)
send_all (accepted zero ∷ answers) (b ∷ left) = ([], some false)
send_all (accepted (suc n) ∷ answers) (b ∷ left) =
    let (sent, result) = send_all answers (drop n left) in (b ∷ (take n left ++ sent), result)

abbrev pub returned : Option (Bool × TcpClient) → Option Bool
returned none = none
returned (some (result, c)) = some result

-- What one more answer puts in front.
abbrev after_bytes : Bytes → Bytes × Option Bool → Bytes × Option Bool
after_bytes sent (rest, result) = (sent ++ rest, result)

loops_agree :
    (answers : List Sent) (text : Bytes) (c : TcpClient)
    → let r = send_loop answers text c in send_all answers text ≡ (r.0, returned r.1)
unfolding send_all send_loop
loops_agree [] [] c = refl
loops_agree (a ∷ answers) [] c = refl
loops_agree [] (b ∷ left) c = refl
loops_agree (interrupted ∷ answers) (b ∷ left) c = loops_agree answers (b ∷ left) c
loops_agree (failed ∷ answers) (b ∷ left) c = refl
loops_agree (accepted zero ∷ answers) (b ∷ left) c = refl
loops_agree (accepted (suc n) ∷ answers) (b ∷ left) c =
    ap (after_bytes (b ∷ take n left)) (loops_agree answers (drop n left) c)

-- The server's `sendAll` is the agent's: on a connected client the two put out the same bytes and
-- return the same result, whatever `send` answers.
pub send_all-agent :
    (answers : List Sent) (text : Bytes) (c : TcpClient)
    → is_connected c ≡ true
    → let r = Agent.send_all answers text c in send_all answers text ≡ (r.0, returned r.1)
unfolding Agent.send_all
send_all-agent answers text c on = rw on (loops_agree answers text c)
