-- ===== src/Http/Routes.antt =====
-- `HttpServer::handleClient` and `loadDashboardHtml` of src/http/HttpServer.cpp. What `recv` and the
-- files give is an argument; the result is what goes to `sendAll`.
pub mod Words
pub mod Requests
use lmonitor.Base.{
  ℕ, suc, ◌+◌, ◌-◌, ◌%◌, ◌^◌, Bool, true, false, not, ◌&&◌, ◌||◌, List, [], ◌∷◌, ◌++◌, Option, none,
  some, if◌then◌else◌, ◌==◌, length, take, drop,
}
use lmonitor.Base.Text.{Bytes, codes, bytes_eq}
use lmonitor.Base.Words.{take_word, word}
use lmonitor.Float.{Float}
use lmonitor.Http.Response.{ok_json, ok_html, not_found, bad_request}
use lmonitor.Http.Api.{
  HttpServer, build_hosts_json, build_host_detail_json, build_host_history_json, build_alerts_json,
}

-- `s.rfind(p, 0) == 0`
unfoldable pub starts_with : Bytes → Bytes → Bool
starts_with [] s = true
starts_with (c ∷ p) [] = false
starts_with (c ∷ p) (x ∷ s) = x == c && starts_with p s

abbrev pub one_later : Option ℕ → Option ℕ
one_later none = none
one_later (some i) = some (suc i)

-- `s.find(p)`, with `none` for npos
unfoldable pub find : Bytes → Bytes → Option ℕ
unfolding starts_with
find p [] = if starts_with p [] then some 0 else none
find p (c ∷ s) = let later = find p s in if starts_with p (c ∷ s) then some 0 else one_later later

-- `loadDashboardHtml`: the first file that opens.
abbrev pub first_file : (Bytes → Option Bytes) → List Bytes → Bytes
first_file files [] = []
first_file files (path ∷ paths) =
    let later = first_file files paths in elim (files path) [ none ↦ later | some text ↦ text ]

unfoldable pub load_dashboard_html : (Bytes → Option Bytes) → Bytes
load_dashboard_html files =
    first_file files
      (codes "../web/index.html" ∷ codes "web/index.html" ∷ codes "./web/index.html" ∷ [])

abbrev pub buffer_size : ℕ
buffer_size = 8192

abbrev pub prefix : Bytes
prefix = codes "/api/hosts/"

abbrev pub suffix : Bytes
suffix = codes "/history"

-- `path.substr(start, end - start)` on std::size_t, with `start` behind the prefix
abbrev pub history_host : ℕ → Bytes → Bytes
history_host end_at path =
    take ((2 ^ 64 + end_at - length prefix) % 2 ^ 64) (drop (length prefix) path)

module _ {D : Type 0} (F : Float D) (files : Bytes → Option Bytes) where
  -- The paths below the prefix.
  abbrev pub host_response : Bytes → Option ℕ → HttpServer D → Bytes
  host_response path (some end_at) s =
      ok_json (build_host_history_json F (history_host end_at path) s.history_store)
  host_response path none s = ok_json (build_host_detail_json F (drop (length prefix) path) s.store)

  -- The response to a GET of a path.
  unfoldable pub respond : Bytes → HttpServer D → Bytes
  unfolding find load_dashboard_html
  respond path s =
      if bytes_eq path (codes "/") || bytes_eq path (codes "/index.html")
      then ok_html (load_dashboard_html files)
      else if bytes_eq path (codes "/api/alerts")
      then ok_json (build_alerts_json F s.alert_manager)
      else if bytes_eq path (codes "/api/hosts")
      then ok_json (build_hosts_json F s.store)
      else if starts_with prefix path
      then host_response path (find suffix path) s
      else not_found

  -- The method and the path of the request line.
  abbrev pub on_line : Bytes → HttpServer D → Bytes
  on_line line s =
      let (method, behind_method) = word line in
      let (path, behind_path) = word behind_method in
      if not (bytes_eq method (codes "GET")) then bad_request else respond path s

  -- The response to the bytes of a request.
  abbrev pub on_request : Bytes → HttpServer D → Bytes
  on_request request s = elim (find (b'\r' ∷ b'\n' ∷ []) request) [
    | none ↦ bad_request
    | some line_end ↦ on_line (take line_end request) s
  ]

  -- The response to what had arrived when `recv` was called, of which that one call takes what the
  -- buffer holds beside its zero; or `none`, when the peer sent nothing or `recv` failed.
  unfoldable pub handle_client : Option Bytes → HttpServer D → Option Bytes
  unfolding find respond take_word
  handle_client none s = none
  handle_client (some arrived) s = some (on_request (take (buffer_size - 1) arrived) s)
