-- ===== src/Serializer/RoundTrip/Lines.antt =====
-- The loop over the lines in MetricsDeserializer.cpp, on a line that MetricsSerializer.cpp wrote.
use lmonitor.Base.{ℕ, ◌<◌, ◌≡◌, refl, false, [], ◌∷◌, ◌++◌, ok, arith, ◌==◌, is_empty, All}
use lmonitor.Base.Text.{Bytes, codes, bytes_eq}
use lmonitor.Base.Decimal.{IsDigit, to_string, to_string-IsDigit, to_string-ne-nil}
use lmonitor.Base.Lines.{ends, lines, has, lines-line, cut-append, has-append}
use lmonitor.Float.{Float}
use lmonitor.Serializer.Writer.{entry}
use lmonitor.Serializer.Reader.{
  Parsing, strip_cr, contains, mark_required_field, set_field, parse_entry, parse_line, parse_lines,
}
use lmonitor.Serializer.RoundTrip.Sendable.{IsLine, IsText}

ends-has : (c : ℕ) (s : Bytes) → has c s ≡ false → ends c s ≡ false
unfolding has
ends-has c [] h = refl
ends-has c (x ∷ []) h = ground arith
ends-has c (x ∷ y ∷ s) h = ends-has c (y ∷ s) (ground arith)

pub strip_cr_lem : (s : Bytes) → has b'\r' s ≡ false → strip_cr s ≡ s
unfolding strip_cr
strip_cr_lem s h = rw (ends-has b'\r' s h) refl

pub digits-has : (c : ℕ) (s : Bytes) → c < b'0' → All IsDigit s → has c s ≡ false
unfolding has
digits-has c [] h d = refl
digits-has c (x ∷ s) h d = ground (arith, digits-has c s h d.1)

pub to_string-IsText : (n : ℕ) → IsText (to_string n)
to_string-IsText n =
    let d = to_string-IsDigit n in
    (
      to_string-ne-nil n,
      (
        digits-has b'\n' (to_string n) (omega arith) d,
        digits-has b'\r' (to_string n) (omega arith) d,
      ),
    )

append-is_empty : (a : Bytes) (c : ℕ) (b : Bytes) → is_empty (a ++ c ∷ b) ≡ false
append-is_empty [] c b = refl
append-is_empty (x ∷ a) c b = refl

-- A key, which is a short literal.
pub record IsKey (key : Bytes) : Type 0 where
  pub one_line : IsLine key
  pub no_equals : has b'=' key ≡ false
  pub given : is_empty key ≡ false

line-has :
    (c : ℕ) (key v : Bytes)
    → has c key ≡ false
    → has c v ≡ false
    → (b'=' == c) ≡ false
    → has c (key ++ b'=' ∷ v) ≡ false
unfolding has
line-has c key v hk hv ne = ground (arith, has-append c key (b'=' ∷ v))

module _ {D : Type 0} (F : Float D) where
  parse_line-entry :
      (key v : Bytes) (st : Parsing D)
      → IsKey key
      → IsLine v
      → parse_line F (key ++ b'=' ∷ v) st ≡ parse_entry F key v st
  unfolding parse_line
  parse_line-entry key v st k l =
      rw
        (
          strip_cr_lem (key ++ b'=' ∷ v) (line-has b'\r' key v k.one_line.1 l.1 refl),
          append-is_empty key b'=' v,
          cut-append b'=' key v k.no_equals,
        )
        refl

  pub lines-entry :
      (key v rest : Bytes)
      → IsKey key
      → IsLine v
      → lines (entry key v rest) ≡ (key ++ b'=' ∷ v) ∷ lines rest
  lines-entry key v rest k l =
      lines-line (key ++ b'=' ∷ v) rest (line-has b'\n' key v k.one_line.0 l.0 refl)

  pub parse_lines-entry :
      (key v rest : Bytes) (st : Parsing D) {st' : Parsing D}
      → IsKey key
      → IsLine v
      → parse_entry F key v st ≡ ok st'
      → parse_lines F (lines (entry key v rest)) st ≡ parse_lines F (lines rest) st'
  unfolding parse_lines
  parse_lines-entry key v rest st k l e =
      rw (lines-entry key v rest k l, parse_line-entry key v st k l, e) refl

  -- A line with a field that was not there before.
  pub field :
      (key v rest : Bytes) (st : Parsing D) {st' : Parsing D}
      → IsKey key
      → IsLine v
      → bytes_eq key (codes "process") ≡ false
      → contains key st.received_fields ≡ false
      → set_field F key v (record st { received_fields = key ∷ st.received_fields }) ≡ ok st'
      → parse_lines F (lines (entry key v rest)) st ≡ parse_lines F (lines rest) st'
  field key v rest st k l other fresh e =
      parse_lines-entry key v rest st k l
        (unfold parse_entry mark_required_field in rw (k.given, other, fresh) e)
