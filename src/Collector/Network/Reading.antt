-- ===== src/Collector/Network/Reading.antt =====
-- `NetworkCollector::collect`, src/collector/NetworkCollector.cpp, on what the kernel writes.
use lmonitor.Base.{
  ℕ, ◌^◌, ◌<◌, ◌≡◌, ◌≢◌, refl, ap, ◌∙◌, true, false, not, ◌||◌, List, [], ◌∷◌, ◌++◌, Option, none,
  some, ok, ◌>>=◌, All, arith, length, is_empty, is_empty_no, subst, append-nil, Option-cases, inl,
  inr,
}
use lmonitor.Base.Text.{Bytes, bytes_eq, bytes_eq_iff}
use lmonitor.Base.Decimal.{to_string}
use lmonitor.Base.Lines.{cut, cut-append, has}
use lmonitor.Base.Number.{EndsNumber, stoull-space, blanks, stoull-blanks}
use lmonitor.Collector.Network.{
  is_blank, trim_left, trim_right, trim, counter, skip_counters, stats_of, collect_lines,
}

-- A column: a number of further blanks, and the value.
abbrev pub Column : Type 0
Column = ℕ × ℕ

abbrev pub IsCounter : Column → Type 0
IsCounter (pad, n) = n < 2 ^ 64

-- Columns, each behind one blank or more, and what is behind them.
abbrev pub columns_text : List Column → Bytes → Bytes
columns_text [] rest = rest
columns_text ((pad, n) ∷ ns) rest = b' ' ∷ blanks pad (to_string n ++ columns_text ns rest)

columns_text-EndsNumber :
    (ns : List Column) (rest : Bytes) → EndsNumber rest → EndsNumber (columns_text ns rest)
columns_text-EndsNumber [] rest e = e
columns_text-EndsNumber (n ∷ ns) rest e = refl

counter-columns :
    (pad n : ℕ) (ns : List Column) (rest : Bytes)
    → n < 2 ^ 64
    → EndsNumber rest
    → counter (columns_text ((pad, n) ∷ ns) rest) ≡ ok (n, columns_text ns rest)
counter-columns pad n ns rest h e =
    rw
      (
        stoull-blanks pad (to_string n ++ columns_text ns rest),
        stoull-space n (columns_text ns rest) h (columns_text-EndsNumber ns rest e),
        counter,
      )
      refl

skip_counters-columns :
    (skipped ns : List Column) (rest : Bytes)
    → All IsCounter skipped
    → EndsNumber rest
    → skip_counters (length skipped) (columns_text (skipped ++ ns) rest) ≡ ok (columns_text ns rest)
unfolding skip_counters
skip_counters-columns [] ns rest h e = refl
skip_counters-columns ((pad, n) ∷ skipped) ns rest h e =
    ap (λ r. r >>= λ (c, left). skip_counters (length skipped) left)
      (counter-columns pad n (skipped ++ ns) rest h.0 e)
    ∙ skip_counters-columns skipped ns rest h.1 e

stats_of-columns :
    (name : Bytes) (p rx q tx : ℕ) (a b : List Column) (rest : Bytes)
    → rx < 2 ^ 64
    → tx < 2 ^ 64
    → All IsCounter a
    → All IsCounter b
    → length a ≡ 7
    → length b ≡ 7
    → EndsNumber rest
    → stats_of name (columns_text ((p, rx) ∷ (a ++ (q, tx) ∷ b)) rest)
      ≡ ok (record { interface_name = name; rx_bytes = rx; tx_bytes = tx })
unfolding stats_of
stats_of-columns name p rx q tx a b rest hr ht ha hb la lb e =
    let first =
      subst
        (λ k.
          skip_counters k (columns_text (a ++ (q, tx) ∷ b) rest)
          ≡ ok (columns_text ((q, tx) ∷ b) rest))
        la (skip_counters-columns a ((q, tx) ∷ b) rest ha e) in
    let second =
      subst (λ k. skip_counters k (columns_text b rest) ≡ ok rest) lb
        (subst (λ l. skip_counters (length b) (columns_text l rest) ≡ ok rest) (append-nil b)
          (skip_counters-columns b [] rest hb e)) in
    rw (counter-columns p rx (a ++ (q, tx) ∷ b) rest hr e, stats_of)
      (rw (first, stats_of)
        (rw (counter-columns q tx b rest ht e, stats_of) (rw (second, stats_of) refl)))

trim_left-name :
    (blanks name : Bytes)
    → All (λ c. is_blank c ≡ true) blanks
    → All (λ c. is_blank c ≡ false) name
    → trim_left (blanks ++ name) ≡ name
trim_left-name [] [] hb hn = refl
trim_left-name [] (c ∷ name) hb hn = rw hn.0 refl
trim_left-name (c ∷ blanks) name hb hn = rw hb.0 (trim_left-name blanks name hb.1 hn)

trim_right-name : (name : Bytes) → All (λ c. is_blank c ≡ false) name → trim_right name ≡ name
trim_right-name [] h = refl
trim_right-name (c ∷ name) h = rw h.0 (ap (◌∷◌ c) (trim_right-name name h.1))

trim-name :
    (blanks name : Bytes)
    → All (λ c. is_blank c ≡ true) blanks
    → All (λ c. is_blank c ≡ false) name
    → trim (blanks ++ name) ≡ name
trim-name blanks name hb hn =
    ap trim_right (trim_left-name blanks name hb hn) ∙ trim_right-name name hn

-- The name that a line of the file is for.
abbrev name_of : Option (Bytes × Bytes) → Option Bytes
name_of none = none
name_of (some (left, columns)) = some (trim left)

abbrev pub IsOther : Bytes → Bytes → Type 0
IsOther name line = name_of (cut b':' line) ≢ some name

skip_test : (n name : Bytes) → n ≢ name → (is_empty n || not (bytes_eq n name)) ≡ true
skip_test n name ne = ground (arith, bytes_eq_iff n name)

keep_test : (name : Bytes) → name ≢ [] → (is_empty name || not (bytes_eq name name)) ≡ false
keep_test name ne = ground (arith, is_empty_no name ne, bytes_eq_iff name name)

collect_lines-other :
    (name line : Bytes) (rest : List Bytes)
    → IsOther name line
    → collect_lines name (line ∷ rest) ≡ collect_lines name rest
unfolding collect_lines
collect_lines-other name line rest other = elim (Option-cases (cut b':' line)) [
  | inl e ↦ rw (e, collect_lines) refl
  | inr ((left, columns), e) ↦
      let ne : trim left ≢ name = λ q. other (ap name_of e ∙ ap some q) in
      rw (e, collect_lines) (rw (skip_test (trim left) name ne) refl)
]

-- The line of an interface: its name behind blanks, a colon, and the columns, which the kernel pads
-- with blanks to their widths.
abbrev pub line_for : Bytes → Bytes → List Column → Bytes → Bytes
line_for indent name columns rest = (indent ++ name) ++ b':' ∷ columns_text columns rest

-- The line of the interface that is asked for, behind lines for others, gives its first and its ninth
-- column: with blanks, however many, before its name, one blank or more before each of the sixteen
-- columns, whatever stands behind these, and whatever the lines below are.
pub collect_lines-line_for :
    (others : List Bytes) (indent name : Bytes) (p rx q tx : ℕ) (a b : List Column) (rest : Bytes)
    (below : List Bytes)
    → All (IsOther name) others
    → name ≢ []
    → has b':' (indent ++ name) ≡ false
    → All (λ c. is_blank c ≡ true) indent
    → All (λ c. is_blank c ≡ false) name
    → All IsCounter ((p, rx) ∷ (q, tx) ∷ a)
    → All IsCounter b
    → length a ≡ 7
    → length b ≡ 7
    → EndsNumber rest
    → collect_lines name
        (others ++ line_for indent name ((p, rx) ∷ (a ++ (q, tx) ∷ b)) rest ∷ below)
      ≡ ok (record { interface_name = name; rx_bytes = rx; tx_bytes = tx })
unfolding collect_lines
collect_lines-line_for [] indent name p rx q tx a b rest below ho ne hc hb hn h k la lb e =
    rw
      (
        cut-append b':' (indent ++ name) (columns_text ((p, rx) ∷ (a ++ (q, tx) ∷ b)) rest) hc,
        collect_lines,
      )
      (rw (trim-name indent name hb hn, collect_lines)
        (rw (keep_test name ne)
          (stats_of-columns name p rx q tx a b rest h.0 h.1.0 h.1.1 k la lb e)))
collect_lines-line_for (other ∷ others) indent name p rx q tx a b rest below (ho, hos) ne hc hb hn h
      k la lb e =
    collect_lines-other name other _ ho
    ∙ collect_lines-line_for others indent name p rx q tx a b rest below hos ne hc hb hn h k la lb e
