-- ===== src/Collector/Host/Memory.antt =====
-- The reading of /proc/meminfo, on what the kernel writes.
use lmonitor.Base.{
  ℕ, zero, suc, ◌+◌, ◌-◌, ◌^◌, ◌<◌, ◌≤◌, ◌≡◌, refl, ap, ◌∙◌, true, false, List, [], ◌∷◌, ◌++◌, some,
  ok, All, length, length-append, is_empty_no, arith,
}
use native.Mathlib.Nat.{suc-add, zero-add}
use lmonitor.Base.Text.{Bytes, codes, bytes_eq}
use lmonitor.Base.Decimal.{to_string}
use lmonitor.Base.Number.{skip_spaces, stoull-space, blanks, stoull-blanks}
use lmonitor.Base.Words.{IsWord, word-append, take_word}
use lmonitor.Collector.Process.{next_word, next_unsigned, read_entry}
use lmonitor.Collector.Host.{
  MemoryInfo, used_kb, with_entry, is_complete, memory_rounds, checked, collect_memory,
}

-- A name, a number of further blanks, and a value.
abbrev pub Entry : Type 0
Entry = Bytes × ℕ × ℕ

abbrev pub entry_text : Entry → Bytes → Bytes
entry_text (key, pad, n) rest = key ++ b' ' ∷ blanks pad (to_string n ++ (codes " kB\n" ++ rest))

abbrev pub entries_text : List Entry → Bytes → Bytes
entries_text [] rest = rest
entries_text (e ∷ es) rest = entry_text e (entries_text es rest)

abbrev pub IsEntry : Entry → Type 0
IsEntry (key, pad, n) = IsWord key × (n < 2 ^ 64)

next_word-text : (w rest : Bytes) → IsWord w → next_word (w ++ b' ' ∷ rest) ≡ some (w, b' ' ∷ rest)
next_word-text w rest h =
    rw (word-append w b' ' rest h refl, next_word) (rw (is_empty_no w h.0) refl)

read_entry-text :
    (e : Entry) (rest : Bytes)
    → IsEntry e
    → read_entry (entry_text e rest) ≡ some (e.0, e.2, b'\n' ∷ rest)
unfolding take_word skip_spaces
read_entry-text (key, pad, n) rest h =
    let tail = codes " kB\n" ++ rest in
    rw
      (
        next_word-text key (blanks pad (to_string n ++ tail)) h.0,
        stoull-blanks pad (to_string n ++ tail),
        stoull-space n tail h.1 refl,
        read_entry,
        next_unsigned,
      )
      refl

-- A line end before the entry is skipped.
read_entry-newline : (s : Bytes) → read_entry (b'\n' ∷ s) ≡ read_entry s
unfolding skip_spaces
read_entry-newline s = refl

-- An entry that is not used.
abbrev pub IsOther : Entry → Type 0
IsOther (key, pad, n) =
    (bytes_eq key (codes "MemTotal:") ≡ false) × (bytes_eq key (codes "MemAvailable:") ≡ false)

with_entry_other : (e : Entry) (m : MemoryInfo) → IsOther e → with_entry e.0 e.2 m ≡ m
with_entry_other (key, pad, n) m (a, b) = rw (a, b, with_entry) refl

-- One round, on an entry that does not end the loop.
round-entry :
    (fuel : ℕ) (text rest : Bytes) (key : Bytes) (n : ℕ) (m : MemoryInfo)
    → read_entry text ≡ some (key, n, rest)
    → is_complete (with_entry key n m) ≡ false
    → memory_rounds (suc fuel) text m ≡ memory_rounds fuel rest (with_entry key n m)
unfolding memory_rounds
round-entry fuel text rest key n m e c = rw (e, memory_rounds) (rw c refl)

-- The round that ends it.
round-last :
    (fuel : ℕ) (text rest : Bytes) (key : Bytes) (n : ℕ) (m : MemoryInfo)
    → read_entry text ≡ some (key, n, rest)
    → is_complete (with_entry key n m) ≡ true
    → memory_rounds (suc fuel) text m ≡ with_entry key n m
unfolding memory_rounds
round-last fuel text rest key n m e c = rw (e, memory_rounds) (rw c refl)

rounds-others :
    (es : List Entry) (fuel : ℕ) (rest : Bytes) (m : MemoryInfo)
    → All IsEntry es
    → All IsOther es
    → is_complete m ≡ false
    → memory_rounds (length es + fuel) (b'\n' ∷ entries_text es rest) m
      ≡ memory_rounds fuel (b'\n' ∷ rest) m
rounds-others [] fuel rest m h o c = rw zero-add refl
rounds-others (e ∷ es) fuel rest m h o c =
    let text = entries_text es rest in
    let same = with_entry_other e m o.0 in
    rw suc-add (
      round-entry (length es + fuel) (b'\n' ∷ entry_text e text) (b'\n' ∷ text) e.0 e.2 m
        (read_entry-newline (entry_text e text) ∙ read_entry-text e text h.0) (rw same c)
      ∙ ap (memory_rounds (length es + fuel) (b'\n' ∷ text)) same
      ∙ rounds-others es fuel rest m h.1 o.1 c)

blanks-long : (n : ℕ) (s : Bytes) → length s ≤ length (blanks n s)
blanks-long zero s = omega arith
blanks-long (suc n) s = omega (arith, blanks-long n s)

-- The length of the text is fuel for its entries.
entry_text-long : (e : Entry) (rest : Bytes) → suc (length rest) ≤ length (entry_text e rest)
entry_text-long (key, pad, n) rest = omega (
  arith,
  length-append key (b' ' ∷ blanks pad (to_string n ++ (codes " kB\n" ++ rest))),
  blanks-long pad (to_string n ++ (codes " kB\n" ++ rest)),
  length-append (to_string n) (codes " kB\n" ++ rest),
)

entries_text-long :
    (es : List Entry) (rest : Bytes) → length es + length rest ≤ length (entries_text es rest)
entries_text-long [] rest = omega arith
entries_text-long (e ∷ es) rest =
    omega (arith, entry_text-long e (entries_text es rest), entries_text-long es rest)

abbrev pub memory_of : ℕ → ℕ → MemoryInfo
memory_of total available = record { total_kb = total; available_kb = available }

abbrev pub total_entry : ℕ → ℕ → Entry
total_entry pad n = (codes "MemTotal:", pad, n)

abbrev pub available_entry : ℕ → ℕ → Entry
available_entry pad n = (codes "MemAvailable:", pad, n)

rounds-found :
    (fuel pad total pad' available : ℕ) (es : List Entry) (more : Bytes)
    → 0 < total
    → total < 2 ^ 64
    → 0 < available
    → available < 2 ^ 64
    → All IsEntry es
    → All IsOther es
    → memory_rounds
        (suc (length es + suc fuel))
        (entry_text
          (total_entry pad total)
          (entries_text es (entry_text (available_entry pad' available) more)))
        (memory_of 0 0)
      ≡ memory_of total available
unfolding bytes_eq
rounds-found fuel pad total pad' available es more t t' a a' h o =
    let last = entry_text (available_entry pad' available) more in
    round-entry (length es + suc fuel) _ (b'\n' ∷ entries_text es last) (codes "MemTotal:") total _
      (read_entry-text (total_entry pad total) (entries_text es last) (ground arith, t'))
      (ground arith)
    ∙ rounds-others es (suc fuel) last (memory_of total 0) h o (ground arith)
    ∙ round-last fuel (b'\n' ∷ last) (b'\n' ∷ more) (codes "MemAvailable:") available
        (memory_of total 0)
        (read_entry-newline last
          ∙ read_entry-text (available_entry pad' available) more (ground arith, a'))
        (ground arith)

-- A text of /proc/meminfo as the kernel writes it, with any blanks and any other entries between the
-- two that are used, and whatever is behind them, is read as the two values, if none is zero; and
-- then the memory in use and the available memory add up to the total, if that is the larger one.
pub collect_memory-text :
    (pad total pad' available : ℕ) (es : List Entry) (more : Bytes)
    → 0 < total
    → total < 2 ^ 64
    → 0 < available
    → available ≤ total
    → All IsEntry es
    → All IsOther es
    → let m = memory_of total available in
      (collect_memory (
          some (
            entry_text
              (total_entry pad total)
              (entries_text es (entry_text (available_entry pad' available) more))))
        ≡ ok m)
      × (used_kb m + available ≡ total)
unfolding collect_memory used_kb
collect_memory-text pad total pad' available es more t t' a up h o =
    let last = entry_text (available_entry pad' available) more in
    let text = entry_text (total_entry pad total) (entries_text es last) in
    let fuel = length text - (length es + 2) in
    let enough : length text ≡ suc (length es + suc fuel) = omega (
      arith,
      entry_text-long (total_entry pad total) (entries_text es last),
      entries_text-long es last,
      entry_text-long (available_entry pad' available) more,
    ) in
    let found =
      rounds-found fuel pad total pad' available es more t t' a (omega (arith, up, t')) h o in
    (
      ap checked (ap (λ n. memory_rounds n text (memory_of 0 0)) enough ∙ found) ∙ ground arith,
      omega (arith, up, t'),
    )
