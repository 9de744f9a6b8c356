-- ===== src/Http/Response.antt =====
-- src/http/HttpResponse.cpp. The output stream is the text behind what is written.
pub mod Reading
use lmonitor.Base.{ℕ, [], ◌∷◌, ◌++◌, length}
use lmonitor.Base.Text.{Bytes, codes}
use lmonitor.Base.Decimal.{to_string}

-- A line with its CRLF, and what is written behind it.
abbrev pub crlf : Bytes → Bytes → Bytes
crlf line rest = line ++ b'\r' ∷ b'\n' ∷ rest

unfoldable pub build : ℕ → Bytes → Bytes → Bytes → Bytes
build status_code status_text content_type body =
    crlf (codes "HTTP/1.1 " ++ (to_string status_code ++ b' ' ∷ status_text)) (
      crlf (codes "Content-Type: " ++ content_type) (
        crlf (codes "Content-Length: " ++ to_string (length body)) (
          crlf (codes "Connection: close")
            (crlf (codes "Cache-Control: no-cache") (crlf [] body)))))

abbrev pub json_type : Bytes
json_type = codes "application/json; charset=utf-8"

unfoldable pub ok_json : Bytes → Bytes
ok_json body = build 200 (codes "OK") json_type body

unfoldable pub ok_html : Bytes → Bytes
ok_html body = build 200 (codes "OK") (codes "text/html; charset=utf-8") body

unfoldable pub not_found : Bytes
not_found = build 404 (codes "Not Found") json_type (codes "{\"error\":\"not found\"}")

unfoldable pub bad_request : Bytes
bad_request = build 400 (codes "Bad Request") json_type (codes "{\"error\":\"bad request\"}")

unfoldable pub internal_server_error : Bytes
internal_server_error =
    build 500 (codes "Internal Server Error") json_type
      (codes "{\"error\":\"internal server error\"}")
