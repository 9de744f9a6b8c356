-- ===== src/Collector/Network.antt =====
-- `collect` and `calculateRate` of include/collector/NetworkCollector.h and
-- src/collector/NetworkCollector.cpp, on the text of /proc/net/dev.
pub mod Reading
use lmonitor.Base.{
  ℕ, zero, suc, ◌-◌, not, ◌&&◌, ◌||◌, List, [], ◌∷◌, Option, none, some, Result, ok, err, Bool,
  ◌>>=◌, if◌then◌else◌, ◌==◌, leb, drop, is_empty,
}
use lmonitor.Base.Text.{Bytes, bytes_eq}
use lmonitor.Base.Lines.{lines, cut}
use lmonitor.Base.Number.{stoull}
use lmonitor.Float.{Float}

pub record NetworkStats : Type 0 where
  pub interface_name : Bytes
  pub rx_bytes : ℕ
  pub tx_bytes : ℕ

pub record NetworkRate (D : Type 0) : Type 0 where
  pub rx_bytes_per_second : D
  pub tx_bytes_per_second : D

-- std::runtime_error
pub data NetworkError : Type 0 where
  not_open parse_failed not_found invalid_interval : NetworkError

-- A character of " \t".
abbrev pub is_blank : ℕ → Bool
is_blank c = c == b' ' || c == b'\t'

abbrev pub trim_left : Bytes → Bytes
trim_left [] = []
trim_left (c ∷ s) = let later = trim_left s in if is_blank c then later else c ∷ s

abbrev pub trim_right : Bytes → Bytes
trim_right [] = []
trim_right (c ∷ s) =
    let later = trim_right s in if is_blank c && is_empty later then [] else c ∷ later

-- `name.substr(first, last - first + 1)`, empty where all is blank.
abbrev pub trim : Bytes → Bytes
trim s = trim_right (trim_left s)

-- `iss >> counter`; a stream that fails makes `collect` throw.
abbrev pub counter : Bytes → Result NetworkError (ℕ × Bytes)
counter s = elim (stoull s) [ ok (n, rest) ↦ ok (n, rest) | err e ↦ err parse_failed ]

-- The extractions of counters that are not used.
unfoldable pub skip_counters : ℕ → Bytes → Result NetworkError Bytes
skip_counters zero s = ok s
skip_counters (suc n) s = counter s >>= λ (c, rest). skip_counters n rest

-- The sixteen columns behind the colon: the first and the ninth are kept.
unfoldable pub stats_of : Bytes → Bytes → Result NetworkError NetworkStats
unfolding skip_counters
stats_of name columns = do
  (rx, s₁) ← counter columns
  s₂ ← skip_counters 7 s₁
  (tx, s₃) ← counter s₂
  s₄ ← skip_counters 7 s₃
  ok (record { interface_name = name; rx_bytes = rx; tx_bytes = tx })

-- The loop over the lines behind the two header lines.
unfoldable pub collect_lines : Bytes → List Bytes → Result NetworkError NetworkStats
unfolding stats_of
collect_lines interface_name [] = err not_found
collect_lines interface_name (line ∷ rest) =
    let later = collect_lines interface_name rest in
    elim (cut b':' line) [
      | none ↦ later
      | some (left, columns) ↦
          let name = trim left in
          if is_empty name || not (bytes_eq name interface_name)
          then later
          else stats_of name columns
    ]

-- `none` for a file that does not open.
unfoldable pub collect : Bytes → Option Bytes → Result NetworkError NetworkStats
unfolding collect_lines
collect interface_name none = err not_open
collect interface_name (some text) = collect_lines interface_name (drop 2 (lines text))

-- A counter that went back gives the rate 0.
abbrev pub rate_of : {D : Type 0} → Float D → ℕ → ℕ → D → D
rate_of F previous current interval =
    if leb previous current then F.div (F.of_nat (current - previous)) interval else F.of_nat 0

unfoldable pub calculate_rate :
    {D : Type 0} → Float D → NetworkStats → NetworkStats → D → Result NetworkError (NetworkRate D)
calculate_rate F previous current interval =
    if F.leb interval (F.of_nat 0)
    then err invalid_interval
    else ok (record {
      rx_bytes_per_second = rate_of F previous.rx_bytes current.rx_bytes interval;
      tx_bytes_per_second = rate_of F previous.tx_bytes current.tx_bytes interval;
    })
