-- ===== src/Http/Routes/Requests.antt =====
-- Requests of the API and the responses of `handleClient`, src/http/HttpServer.cpp.
use Prim.{tt}
use lmonitor.Base.{
  take-nil, ℕ, suc, ◌+◌, ◌-◌, ◌%◌, ◌^◌, ◌≤◌, zero, All-append, ◌<◌, ◌≡◌, ◌≢◌, refl, sym, ap, ◌∙◌,
  Bool, append_assoc, length-append, take-append_long, true, false, not, ◌&&◌, [], ◌∷◌, ◌++◌,
  Option, none, some, length, take, All, arith, take-append_self,
}
use lmonitor.Base.Text.{Bytes, codes, bytes_eq}
use lmonitor.Base.Lines.{has, has-append}
use lmonitor.Base.Number.{is_space, skip_spaces}
use lmonitor.Base.Words.{IsWord, word-append, take_word, word}
use lmonitor.Float.{Float}
use lmonitor.Http.Response.{json_type, ok_json}
use lmonitor.Http.Response.Reading.{read_response, read_response-build}
use lmonitor.Http.Json.Parser.{parse}
use lmonitor.Http.Json.RoundTrip.{weight}
use lmonitor.Http.Api.Shown.{PrintsNumber, IsShown, parse-page_text}
use lmonitor.Http.Api.{HttpServer, build_host_history_json}
use lmonitor.Http.Api.Pages.{Page, hosts, alerts, detail, history, page_text, page_json}
use lmonitor.Http.Routes.{
  starts_with, find, prefix, suffix, history_host, respond, on_line, on_request, handle_client,
  buffer_size,
}
use lmonitor.Http.Routes.Words.{find_absent, find-append, starts_with-cut}

-- The path of a page.
abbrev pub url : Page → Bytes
url hosts = codes "/api/hosts"
url alerts = codes "/api/alerts"
url (detail h) = prefix ++ h
url (history h) = prefix ++ (h ++ suffix)

abbrev pub request_line : Bytes → Bytes
request_line path = codes "GET " ++ (path ++ codes " HTTP/1.1")

-- What a browser sends: the request line, and the headers behind it.
abbrev pub get : Bytes → Bytes → Bytes
get path headers = request_line path ++ b'\r' ∷ b'\n' ∷ headers

-- A host name that fits a path: no slash, no white space, no `history` in front.
abbrev pub IsAddress : Bytes → Type 0
IsAddress h =
    All (λ c. is_space c ≡ false) h
    × (has b'/' h ≡ false)
    × (starts_with (codes "history") h ≡ false)
    × (length h < 2 ^ 64)

abbrev pub HasAddress : Page → Type 0
HasAddress hosts = Unit
HasAddress alerts = Unit
HasAddress (detail h) = IsAddress h × (h ≢ [])
HasAddress (history h) = IsAddress h

words-has :
    (c : ℕ) (w : Bytes) → is_space c ≡ true → All (λ x. is_space x ≡ false) w → has c w ≡ false
unfolding has
words-has c [] sp h = refl
words-has c (x ∷ w) sp (h, hs) = ground (arith, words-has c w sp hs)

request_line-has : (path : Bytes) → IsWord path → has b'\r' (request_line path) ≡ false
unfolding has
request_line-has path w =
    ground (arith, has-append b'\r' path (codes " HTTP/1.1"), words-has b'\r' path refl w.1)

abbrev spaceless : Bytes → Bool
spaceless [] = true
spaceless (c ∷ w) = let rest = spaceless w in not (is_space c) && rest

spaceless-All : (w : Bytes) → spaceless w ≡ true → All (λ c. is_space c ≡ false) w
spaceless-All [] h = tt
spaceless-All (c ∷ w) h = (ground arith, spaceless-All w (ground arith))

take_over : (n : ℕ) (s : Bytes) → length s ≤ n → take n s ≡ s
take_over n [] h = take-nil n
take_over zero (c ∷ s) h = absurd (omega arith)
take_over (suc n) (c ∷ s) h = ap (◌∷◌ c) (take_over n s (omega arith))

find-get :
    (path headers : Bytes)
    → IsWord path
    → find (b'\r' ∷ b'\n' ∷ []) (get path headers) ≡ some (length (request_line path))
find-get path headers w =
    find-append b'\r' (b'\n' ∷ []) (request_line path) headers (request_line-has path w)

find-detail : (h : Bytes) → IsAddress h → find suffix (prefix ++ h) ≡ none
unfolding find starts_with
find-detail h (w, slash, free, fits) = rw (free, find_absent b'/' (codes "history") h slash) refl

find-history :
    (h : Bytes) → IsAddress h → find suffix (prefix ++ (h ++ suffix)) ≡ some (11 + length h)
unfolding find starts_with has
find-history h (w, slash, free, fits) =
    rw
      (
        starts_with-cut (codes "history") h (codes "history") b'/' refl free,
        find-append b'/' (codes "history") h [] slash,
      )
      (ap some (omega arith))

history_host-prefix :
    (h : Bytes) → length h < 2 ^ 64 → history_host (11 + length h) (prefix ++ (h ++ suffix)) ≡ h
history_host-prefix h fits =
    let same : (2 ^ 64 + (11 + length h) - 11) % 2 ^ 64 ≡ length h = omega arith in
    rw same (take-append_self h suffix)

word_get :
    (path : Bytes)
    → IsWord path
    → word (request_line path) ≡ (codes "GET", b' ' ∷ (path ++ codes " HTTP/1.1"))
unfolding skip_spaces take_word
word_get path w = refl

word_path :
    (path : Bytes)
    → IsWord path
    → word (b' ' ∷ (path ++ codes " HTTP/1.1")) ≡ (path, codes " HTTP/1.1")
unfolding skip_spaces
word_path path w = word-append path b' ' (codes "HTTP/1.1") w refl

url-IsWord : (p : Page) → HasAddress p → IsWord (url p)
url-IsWord hosts a = (λ e. cc, spaceless-All (codes "/api/hosts") refl)
url-IsWord alerts a = (λ e. cc, spaceless-All (codes "/api/alerts") refl)
url-IsWord (detail h) a =
    (λ e. cc, All-append (λ c. is_space c ≡ false) prefix h (spaceless-All prefix refl) a.0.0)
url-IsWord (history h) a = (
  λ e. cc,
  All-append (λ c. is_space c ≡ false) prefix (h ++ suffix) (spaceless-All prefix refl)
      (All-append (λ c. is_space c ≡ false) h suffix a.0 (spaceless-All suffix refl)),
)

module _ {D : Type 0} (F : Float D) (files : Bytes → Option Bytes) where
  on_line-get :
      (path : Bytes) (s : HttpServer D)
      → IsWord path
      → on_line F files (request_line path) s ≡ respond F files path s
  unfolding bytes_eq
  on_line-get path s w = rw (word_get path w) (rw (word_path path w) refl)

  -- What the buffer takes of a request whose line fits.
  received :
      (path headers : Bytes)
      → length (request_line path) + 2 < buffer_size
      → take (buffer_size - 1) (get path headers)
        ≡ get path (take (buffer_size - 1 - (length (request_line path) + 2)) headers)
  received path headers fits =
      let line = request_line path in
      let joined : get path headers ≡ (line ++ b'\r' ∷ b'\n' ∷ []) ++ headers =
        sym (append_assoc line (b'\r' ∷ b'\n' ∷ []) headers) in
      let size : length (line ++ b'\r' ∷ b'\n' ∷ []) ≡ length line + 2 =
        length-append line (b'\r' ∷ b'\n' ∷ []) in
      let k = buffer_size - 1 - (length line + 2) in
      ap (take (buffer_size - 1)) joined
      ∙ take-append_long (buffer_size - 1) (line ++ b'\r' ∷ b'\n' ∷ []) headers
          (omega (arith, size, fits))
      ∙ ap (λ n. (line ++ b'\r' ∷ b'\n' ∷ []) ++ take (buffer_size - 1 - n) headers) size
      ∙ append_assoc line (b'\r' ∷ b'\n' ∷ []) (take k headers)

  -- Any word after GET is the path that is looked up.
  on_request-get :
      (path headers : Bytes) (s : HttpServer D)
      → IsWord path
      → on_request F files (get path headers) s ≡ respond F files path s
  on_request-get path headers s w =
      rw (find-get path headers w, on_request)
        (ap (λ line. on_line F files line s) (take-append_self (request_line path) _)
          ∙ on_line-get path s w)

  handle_client-get :
      (path headers : Bytes) (s : HttpServer D)
      → IsWord path
      → length (request_line path) + 2 < buffer_size
      → handle_client F files (some (get path headers)) s ≡ some (respond F files path s)
  unfolding handle_client
  handle_client-get path headers s w fits =
      ap (λ request. some (on_request F files request s)) (received path headers fits)
      ∙ ap some (on_request-get path _ s w)

  respond-page :
      (p : Page) (s : HttpServer D)
      → HasAddress p
      → respond F files (url p) s ≡ ok_json (page_text F p s)
  unfolding respond bytes_eq starts_with
  respond-page hosts s a = refl
  respond-page alerts s a = refl
  respond-page (detail h) s a = rw (find-detail h a.0) refl
  respond-page (history h) s a =
      rw (find-history h a) (
        ap (λ x. ok_json (build_host_history_json F x s.history_store)) (history_host-prefix h a.3))

  -- A browser asks for a page of the API by its path; when `recv` is called, its request line has
  -- arrived with the line end, and is short enough for the buffer with it; of its headers any part
  -- has arrived. Then it gets one response, reads off it the status 200 and a text that is as long as
  -- announced, and that text is read as the JSON value of what the stores hold: for a host whose name
  -- fits a path, names with no control character but line ends and tabs, and finite numbers.
  pub browse :
      (P : PrintsNumber F) (p : Page) (headers : Bytes) (s : HttpServer D) (fuel : ℕ)
      → HasAddress p
      → length (request_line (url p)) + 2 < buffer_size
      → IsShown F p s
      → length (page_text F p s) < 2 ^ 64
      → weight (page_json F p s) ≤ fuel
      → let response = ok_json (page_text F p s) in
        (handle_client F files (some (get (url p) headers)) s ≡ some response)
        × (read_response response
            ≡ some (record { status = 200; content_type = json_type; body = page_text F p s }))
        × (parse fuel (page_text F p s) ≡ some (page_json F p s, []))
  unfolding ok_json has
  browse P p headers s fuel a short shown fits enough = (
    handle_client-get (url p) headers s (url-IsWord p a) short ∙ ap some (respond-page p s a),
    read_response-build 200 (codes "OK") json_type (page_text F p s) (omega arith) refl refl fits,
    parse-page_text F P p s fuel shown enough,
  )

  -- The metrics of a host whose name begins with `history` cannot be asked for: their path gives the
  -- history of the host.
  pub respond-history :
      (x : Bytes) (s : HttpServer D)
      → length x < 2 ^ 63
      → let h = codes "history" ++ x in
        respond F files (url (detail h)) s ≡ ok_json (page_text F (history h) s)
  unfolding respond bytes_eq starts_with find
  respond-history x s fits =
      ap (λ y. ok_json (build_host_history_json F y s.history_store))
        (take_over (2 ^ 64 - 1) (codes "history" ++ x) (omega arith))
