-- ===== src/Serializer/RoundTrip/Processes.antt =====
-- Process records, written by MetricsSerializer.cpp and read by `parseProcess`.
use lmonitor.Base.{
  ℕ, ◌^◌, ◌<◌, ◌≡◌, refl, sym, ap, subst, ◌∙◌, false, List, [], ◌∷◌, ◌++◌, ok, arith, map,
  append_assoc, append-nil, All, is_empty_no,
}
use lmonitor.Base.Text.{Bytes, codes, bytes_eq}
use lmonitor.Base.Decimal.{to_string, to_string-IsDigit}
use lmonitor.Base.Lines.{lines, has, cut-append, has-append}
use lmonitor.Base.Number.{pos, signed_to_string}
use lmonitor.Float.{Float}
use lmonitor.Model.{ProcessMetric}
use lmonitor.Serializer.Numbers.{parse_int-to_string, parse_uint64-to_string}
use lmonitor.Serializer.Writer.{process_text, write_processes}
use lmonitor.Serializer.Reader.{Parsing, parse_process, parse_entry, parse_lines}
use lmonitor.Serializer.RoundTrip.Sendable.{PrintsFixed, IsSendableProcess, IsLine, rounded_process}
use lmonitor.Serializer.RoundTrip.Fields.{parse_double-print}
use lmonitor.Serializer.RoundTrip.Lines.{IsKey, digits-has, to_string-IsText, parse_lines-entry}

to_string-comma : (n : ℕ) → has b',' (to_string n) ≡ false
to_string-comma n = digits-has b',' (to_string n) (omega arith) (to_string-IsDigit n)

module _ {D : Type 0} (F : Float D) (round : D → D) (P : PrintsFixed F round) where
  numbered :
      (n : ℕ) (p : ProcessMetric D)
      → n < 2 ^ 31
      → IsSendableProcess F p
      → let q : ProcessMetric D = record p { pid = pos n } in
        parse_process F (process_text F q) ≡ ok (rounded_process round q)
  unfolding parse_process signed_to_string
  numbered n p small s = ground (
    arith,
    cut-append b',' (to_string n)
        (F.print_fixed p.cpu_usage_percent
          ++ b','
            ∷ (F.print_fixed p.memory_usage_percent
                ++ b',' ∷ (to_string p.resident_memory_kb ++ b',' ∷ p.name)))
        (to_string-comma n),
    cut-append b',' (F.print_fixed p.cpu_usage_percent)
        (F.print_fixed p.memory_usage_percent
          ++ b',' ∷ (to_string p.resident_memory_kb ++ b',' ∷ p.name))
        (P.no_comma p.cpu_usage_percent s.cpu),
    cut-append b',' (F.print_fixed p.memory_usage_percent)
        (to_string p.resident_memory_kb ++ b',' ∷ p.name)
        (P.no_comma p.memory_usage_percent s.memory),
    cut-append b',' (to_string p.resident_memory_kb) p.name (to_string-comma p.resident_memory_kb),
    parse_int-to_string n (codes "process.pid") small,
    parse_double-print F round p.cpu_usage_percent (codes "process.cpu_usage_percent") P s.cpu,
    parse_double-print F round p.memory_usage_percent (codes "process.memory_usage_percent") P
        s.memory,
    parse_uint64-to_string p.resident_memory_kb (codes "process.resident_memory_kb") s.resident,
    is_empty_no p.name s.name.0,
  )

  pub parse_process-text :
      (p : ProcessMetric D)
      → IsSendableProcess F p
      → parse_process F (process_text F p) ≡ ok (rounded_process round p)
  parse_process-text p s =
      let same : record p { pid = pos s.pid.0 } ≡ p =
        ap (λ z. record p { pid = z }) (sym s.pid.1) in
      subst (λ q. parse_process F (process_text F q) ≡ ok (rounded_process round q)) same
        (numbered s.pid.0 p s.pid.2 s)

  comma-IsLine : (a b : Bytes) → IsLine a → IsLine b → IsLine (a ++ b',' ∷ b)
  unfolding has
  comma-IsLine a b x y = (
    ground (arith, has-append b'\n' a (b',' ∷ b), x.0, y.0),
    ground (arith, has-append b'\r' a (b',' ∷ b), x.1, y.1),
  )

  process_text-IsLine : (p : ProcessMetric D) → IsSendableProcess F p → IsLine (process_text F p)
  unfolding signed_to_string
  process_text-IsLine p s =
      comma-IsLine (signed_to_string p.pid) _
        (subst (λ z. IsLine (signed_to_string z)) (sym s.pid.1) (to_string-IsText s.pid.0).1)
        (comma-IsLine (F.print_fixed p.cpu_usage_percent) _ (P.is_text p.cpu_usage_percent s.cpu).1
          (comma-IsLine (F.print_fixed p.memory_usage_percent) _
            (P.is_text p.memory_usage_percent s.memory).1
            (comma-IsLine (to_string p.resident_memory_kb) p.name
              (to_string-IsText p.resident_memory_kb).1 s.name.1)))

  process-IsKey : IsKey (codes "process")
  unfolding has
  process-IsKey = record { one_line = (refl, refl); no_equals = refl; given = refl }

  abbrev with_processes : Parsing D → List (ProcessMetric D) → Parsing D
  with_processes st ps = record st {
    metrics = record st.metrics { top_processes = st.metrics.top_processes ++ ps };
  }

  parse_entry-process :
      (p : ProcessMetric D) (st : Parsing D)
      → IsSendableProcess F p
      → parse_entry F (codes "process") (process_text F p) st
        ≡ ok (with_processes st (rounded_process round p ∷ []))
  unfolding parse_entry bytes_eq
  parse_entry-process p st s = rw (parse_process-text p s) refl

  pub parse_lines-processes :
      (ps : List (ProcessMetric D)) (st : Parsing D)
      → All (IsSendableProcess F) ps
      → parse_lines F (lines (write_processes F ps)) st
        ≡ ok (with_processes st (map (rounded_process round) ps))
  unfolding write_processes
  parse_lines-processes [] st h =
      unfold parse_lines lines in
      ap (λ ps. ok (record st { metrics = record st.metrics { top_processes = ps } }))
        (sym (append-nil st.metrics.top_processes))
  parse_lines-processes (p ∷ ps) st h =
      let next = with_processes st (rounded_process round p ∷ []) in
      parse_lines-entry F (codes "process") (process_text F p) (write_processes F ps) st
        process-IsKey (process_text-IsLine p h.0) (parse_entry-process p st h.0)
      ∙ parse_lines-processes ps next h.1
      ∙ ap (λ qs. ok (record st { metrics = record st.metrics { top_processes = qs } }))
          (append_assoc st.metrics.top_processes (rounded_process round p ∷ [])
            (map (rounded_process round) ps))
