-- ===== src/Collector/Process/Reading.antt =====
-- The reading of /proc/<pid>/stat, on what the kernel writes.
use lmonitor.Base.{
  ℕ, suc, ◌^◌, ◌<◌, ◌≡◌, ◌≢◌, refl, subst, ap, ◌∙◌, false, List, [], ◌∷◌, ◌++◌, none, some, All,
  length, arith,
}
use lmonitor.Base.Text.{Bytes}
use lmonitor.Base.Decimal.{to_string, to_string-IsDigit}
use lmonitor.Base.Lines.{has, has-append, lines-line}
use lmonitor.Base.Number.{
  ℤ, pos, negsuc, signed_to_string, EndsNumber, stoull-space, is_space, skip_spaces,
}
use lmonitor.Base.Signed.{IsSigned, stoi-space, stoll-space}
use lmonitor.Serializer.RoundTrip.Lines.{digits-has}
use lmonitor.Collector.Process.{
  first_line, ◌>>=◌, behind_last, behind_paren, skip_char, skip_ints, skip_unsigned, skip_longs,
  next_unsigned, read_times, read_process_cpu_times,
}

-- Numbers, each behind a space, and the rest of the line.
abbrev pub signed_text : List ℤ → Bytes → Bytes
signed_text [] rest = rest
signed_text (z ∷ zs) rest = b' ' ∷ (signed_to_string z ++ signed_text zs rest)

abbrev pub unsigned_text : List ℕ → Bytes → Bytes
unsigned_text [] rest = rest
unsigned_text (n ∷ ns) rest = b' ' ∷ (to_string n ++ unsigned_text ns rest)

signed_text-EndsNumber :
    (zs : List ℤ) (rest : Bytes) → EndsNumber rest → EndsNumber (signed_text zs rest)
signed_text-EndsNumber [] rest e = e
signed_text-EndsNumber (z ∷ zs) rest e = refl

unsigned_text-EndsNumber :
    (ns : List ℕ) (rest : Bytes) → EndsNumber rest → EndsNumber (unsigned_text ns rest)
unsigned_text-EndsNumber [] rest e = e
unsigned_text-EndsNumber (n ∷ ns) rest e = refl

skip_ints-text :
    (zs : List ℤ) (rest : Bytes)
    → All (IsSigned (2 ^ 31)) zs
    → EndsNumber rest
    → skip_ints (length zs) (signed_text zs rest) ≡ some rest
skip_ints-text [] rest h e = refl
skip_ints-text (z ∷ zs) rest h e =
    rw (stoi-space z (signed_text zs rest) h.0 (signed_text-EndsNumber zs rest e), skip_ints)
      (skip_ints-text zs rest h.1 e)

skip_longs-text :
    (zs : List ℤ) (rest : Bytes)
    → All (IsSigned (2 ^ 63)) zs
    → EndsNumber rest
    → skip_longs (length zs) (signed_text zs rest) ≡ some rest
skip_longs-text [] rest h e = refl
skip_longs-text (z ∷ zs) rest h e =
    rw (stoll-space z (signed_text zs rest) h.0 (signed_text-EndsNumber zs rest e), skip_longs)
      (skip_longs-text zs rest h.1 e)

skip_unsigned-text :
    (ns : List ℕ) (rest : Bytes)
    → All (λ n. n < 2 ^ 64) ns
    → EndsNumber rest
    → skip_unsigned (length ns) (unsigned_text ns rest) ≡ some rest
skip_unsigned-text [] rest h e = refl
skip_unsigned-text (n ∷ ns) rest h e =
    rw
      (
        stoull-space n (unsigned_text ns rest) h.0 (unsigned_text-EndsNumber ns rest e),
        skip_unsigned,
      )
      (skip_unsigned-text ns rest h.1 e)

-- The fields of a process behind its name, as far as they are read.
pub record Stat : Type 0 where
  pub state : ℕ
  pub ids : List ℤ
  pub faults : List ℕ
  pub user : ℕ
  pub system : ℕ
  pub counts : List ℤ
  pub start : ℕ

abbrev pub IsStat : Stat → Type 0
IsStat t =
    (is_space t.state ≡ false)
    × (t.state ≢ b')')
    × (length t.ids ≡ 5)
    × All (IsSigned (2 ^ 31)) t.ids
    × (length t.faults ≡ 5)
    × All (λ n. n < 2 ^ 64) t.faults
    × (t.user < 2 ^ 64)
    × (t.system < 2 ^ 64)
    × (length t.counts ≡ 6)
    × All (IsSigned (2 ^ 63)) t.counts
    × (t.start < 2 ^ 64)

-- The text from the state on.
abbrev pub start_text : Stat → Bytes → Bytes
start_text t rest = unsigned_text (t.start ∷ []) rest

abbrev pub counts_text : Stat → Bytes → Bytes
counts_text t rest = signed_text t.counts (start_text t rest)

abbrev pub stat_text : Stat → Bytes → Bytes
stat_text t rest =
    t.state
    ∷ signed_text t.ids
        (unsigned_text t.faults (unsigned_text (t.user ∷ t.system ∷ []) (counts_text t rest)))

skip_char-text : (c : ℕ) (s : Bytes) → is_space c ≡ false → skip_char (c ∷ s) ≡ some s
unfolding skip_spaces
skip_char-text c s h = rw (h, skip_char) refl

next_unsigned-text :
    (n : ℕ) (rest : Bytes)
    → n < 2 ^ 64
    → EndsNumber rest
    → next_unsigned (unsigned_text (n ∷ []) rest) ≡ some (n, rest)
next_unsigned-text n rest h e = rw (stoull-space n rest h e, next_unsigned) refl

read_times-text :
    (t : Stat) (rest : Bytes)
    → IsStat t
    → EndsNumber rest
    → read_times (stat_text t rest) ≡ some (t.user, t.system, t.start)
read_times-text t rest h e =
    let counts = counts_text t rest in
    let system = unsigned_text (t.system ∷ []) counts in
    let user = unsigned_text (t.user ∷ t.system ∷ []) counts in
    let faults = unsigned_text t.faults user in
    rw
      (
        skip_char-text t.state (signed_text t.ids faults) h.0,
        subst (λ n. skip_ints n (signed_text t.ids faults) ≡ some faults) h.2
            (skip_ints-text t.ids faults h.3 (unsigned_text-EndsNumber t.faults user refl)),
        subst (λ n. skip_unsigned n faults ≡ some user) h.4
            (skip_unsigned-text t.faults user h.5 refl),
        next_unsigned-text t.user system h.6 refl,
        next_unsigned-text t.system counts h.7
            (signed_text-EndsNumber t.counts (start_text t rest) refl),
        subst (λ n. skip_longs n counts ≡ some (start_text t rest)) h.8
            (skip_longs-text t.counts (start_text t rest) h.9 refl),
        next_unsigned-text t.start rest h.10 e,
      )
      refl

behind_last-none : (c : ℕ) (s : Bytes) → has c s ≡ false → behind_last c s ≡ none
unfolding has
behind_last-none c [] h = refl
behind_last-none c (x ∷ s) h = ground (arith, behind_last-none c s)

behind_last-append :
    (c : ℕ) (front s : Bytes) → has c s ≡ false → behind_last c (front ++ c ∷ s) ≡ some s
behind_last-append c [] s h = rw (behind_last-none c s h, behind_last) (ground arith)
behind_last-append c (x ∷ front) s h = rw (behind_last-append c front s h, behind_last) refl

-- A character that no number is written with, nor the space before it.
abbrev IsOutside : ℕ → Type 0
IsOutside c = (c < b'-') × (c ≢ b' ')

signed-has :
    (c : ℕ) (z : ℤ) (s : Bytes) → IsOutside c → has c (b' ' ∷ (signed_to_string z ++ s)) ≡ has c s
unfolding has signed_to_string
signed-has c (pos n) s h = ground (
  arith,
  has-append c (to_string n) s,
  digits-has c (to_string n) (omega (arith, h.0)) (to_string-IsDigit n),
)
signed-has c (negsuc n) s h = ground (
  arith,
  has-append c (to_string (suc n)) s,
  digits-has c (to_string (suc n)) (omega (arith, h.0)) (to_string-IsDigit (suc n)),
)

signed_text-has :
    (c : ℕ) (zs : List ℤ) (s : Bytes) → IsOutside c → has c (signed_text zs s) ≡ has c s
signed_text-has c [] s h = refl
signed_text-has c (z ∷ zs) s h = signed-has c z (signed_text zs s) h ∙ signed_text-has c zs s h

unsigned_text-has :
    (c : ℕ) (ns : List ℕ) (s : Bytes) → IsOutside c → has c (unsigned_text ns s) ≡ has c s
unfolding signed_to_string
unsigned_text-has c [] s h = refl
unsigned_text-has c (n ∷ ns) s h =
    signed-has c (pos n) (unsigned_text ns s) h ∙ unsigned_text-has c ns s h

stat_text-has :
    (c : ℕ) (t : Stat) (rest : Bytes)
    → IsOutside c
    → t.state ≢ c
    → has c (stat_text t rest) ≡ has c rest
unfolding has
stat_text-has c t rest h ne =
    let counts = counts_text t rest in
    let user = unsigned_text (t.user ∷ t.system ∷ []) counts in
    let all =
      signed_text-has c t.ids (unsigned_text t.faults user) h
      ∙ unsigned_text-has c t.faults user h
      ∙ unsigned_text-has c (t.user ∷ t.system ∷ []) counts h
      ∙ signed_text-has c t.counts (start_text t rest) h
      ∙ unsigned_text-has c (t.start ∷ []) rest h in
    ground (arith, all)

first_line-text :
    (line more : Bytes)
    → has b'\n' line ≡ false
    → first_line (some (line ++ b'\n' ∷ more)) ≡ some line
first_line-text line more h = rw (lines-line line more h, first_line) refl

behind_paren-text :
    (front : Bytes) (c : ℕ) (s : Bytes)
    → has b')' (c ∷ s) ≡ false
    → behind_paren (front ++ b')' ∷ b' ' ∷ c ∷ s) ≡ some (c ∷ s)
unfolding has
behind_paren-text front c s h =
    rw (behind_last-append b')' front (b' ' ∷ c ∷ s) h, behind_paren) refl

front-has :
    (front s : Bytes)
    → has b'\n' front ≡ false
    → has b'\n' s ≡ false
    → has b'\n' (front ++ b')' ∷ b' ' ∷ s) ≡ false
unfolding has
front-has front s h k = ground (arith, has-append b'\n' front (b')' ∷ b' ' ∷ s))

-- The first line of /proc/<pid>/stat as the kernel writes it: whatever the name of the program is, if
-- it has no line end, with spaces and parentheses, the times are those of the fields behind the name.
pub read_process_cpu_times-text :
    (front : Bytes) (t : Stat) (rest more : Bytes)
    → IsStat t
    → EndsNumber rest
    → has b')' rest ≡ false
    → has b'\n' front ≡ false
    → has b'\n' rest ≡ false
    → read_process_cpu_times (some ((front ++ b')' ∷ b' ' ∷ stat_text t rest) ++ b'\n' ∷ more))
      ≡ some (t.user, t.system, t.start)
unfolding read_process_cpu_times
read_process_cpu_times-text front t rest more h e paren one last =
    let s = stat_text t rest in
    let line = front ++ b')' ∷ b' ' ∷ s in
    let newline =
      stat_text-has b'\n' t rest (omega arith, (λ x. absurd (omega arith)))
        (λ x. absurd (ground (arith, h.0))) in
    let parens = stat_text-has b')' t rest (omega arith, (λ x. absurd (omega arith))) h.1 in
    ap (λ o. o >>= λ l. behind_paren l >>= read_times)
      (first_line-text line more (front-has front s one (newline ∙ last)))
    ∙ ap (λ o. o >>= read_times)
        (behind_paren-text front t.state (signed_text t.ids _) (parens ∙ paren))
    ∙ read_times-text t rest h e
