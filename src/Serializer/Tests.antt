-- ===== src/Serializer/Tests.antt =====
-- Metrics written and read back, and the theorem about them.
use lmonitor.Base.{◌≡◌, refl, [], ◌∷◌, ◌++◌, ok, err}
use lmonitor.Base.Text.{codes, bytes_eq}
use lmonitor.Base.Lines.{lines, cut}
use lmonitor.Base.Number.{stoull, skip_spaces, scan_digits}
use lmonitor.Sample.{whole}
use lmonitor.Serializer.Writer.{serialize}
use lmonitor.Serializer.Example.{whole-PrintsFixed, sent, sent-IsSendable}
use lmonitor.Serializer.Numbers.{parse_double, unsupported_version, duplicate_field}
use lmonitor.Serializer.Reader.{
  deserialize, strip_cr, parse_lines, parse_line, parse_entry, mark_required_field, contains,
  set_field,
}
use lmonitor.Serializer.RoundTrip.Sendable.{rounded}
use lmonitor.Serializer.RoundTrip.Whole.{deserialize-serialize}
use lmonitor.Serializer.Accepted.Valid.{IsValid, deserialize-IsValid}

deserialize-serialize_example :
    deserialize whole (serialize whole sent) ≡ ok (rounded (λ d. d) sent)
deserialize-serialize_example =
    deserialize-serialize whole (λ d. d) whole-PrintsFixed sent sent-IsSendable

version_two :
    deserialize whole (codes "LMONITOR/2" ++ b'\n' ∷ [])
    ≡ err (unsupported_version (codes "LMONITOR/2"))
unfolding deserialize lines bytes_eq strip_cr
version_two = refl

twice :
    deserialize whole (codes "LMONITOR/1" ++ b'\n' ∷ codes "load_1=3" ++ b'\n' ∷ codes "load_1=4")
    ≡ err (duplicate_field (codes "load_1"))
unfolding deserialize lines bytes_eq strip_cr parse_lines parse_line cut parse_entry
    mark_required_field contains set_field parse_double stoull skip_spaces scan_digits
twice = refl

deserialize-IsValid_example : IsValid whole (rounded (λ d. d) sent)
deserialize-IsValid_example =
    deserialize-IsValid whole (serialize whole sent) (rounded (λ d. d) sent)
      (deserialize-serialize whole (λ d. d) whole-PrintsFixed sent sent-IsSendable)
