-- ===== src/Logger/File/Limit.antt =====
-- The size of the active file of src/log/Logger.cpp.
use lmonitor.Base.{
  ℕ, ◌+◌, ◌%◌, ◌^◌, ◌≤◌, ◌<◌, ◌≡◌, refl, sym, ap, ◌∙◌, true, false, ◌&&◌, List, [], ◌∷◌, Option,
  none, some, if◌then◌else◌, leb, length, arith, ◌⊎◌, All, Bool-cases, inl, inr, length-append,
}
use lmonitor.Base.Text.{Bytes}
use lmonitor.Logger.File.Records.{line_of}
use lmonitor.Logger.File.{
  max_log_file_size, Files, Logger, Answers, contents, is_there, open_log_file, fresh,
  without_backup, renamed, rotated, rotate_if_needed, log, create, run,
}

-- Every call on the file system succeeds.
abbrev pub Succeeds : Answers → Type 0
Succeeds a =
    (a.sees_backup ≡ true)
    × (a.removes ≡ true)
    × (a.sees_active ≡ true)
    × (a.renames ≡ true)
    × (a.opens ≡ true)
    × (a.sizes ≡ true)
    × (a.writes ≡ true)

-- The file is open, its stream is good, its size is known, and is within the limit.
abbrev pub IsTracked : Logger → Type 0
IsTracked s =
    (s.is_open ≡ true)
    × (s.is_good ≡ true)
    × (s.current_file_size ≡ length (contents s.files.active))
    × (length (contents s.files.active) ≤ max_log_file_size)

abbrev pub IsShort : Answers × Bytes → Type 0
IsShort (a, line) = Succeeds a × (length line < max_log_file_size)

-- An empty file, open.
abbrev IsFresh : Logger → Type 0
IsFresh t =
    (t.is_open ≡ true) × (t.is_good ≡ true) × (t.current_file_size ≡ 0) × (t.files.active ≡ some [])

fresh-IsFresh : (a : Answers) (s : Logger) → a.opens ≡ true → IsFresh (fresh a s)
fresh-IsFresh a s k = rw k (refl, refl, refl, refl)

rotated-IsFresh :
    (a : Answers) (s : Logger) (active : Option Bytes)
    → Succeeds a
    → IsFresh (rotated a (record s { files = record s.files { active = active } }))
unfolding open_log_file
rotated-IsFresh a s none k =
    fresh-IsFresh a (record s { files = record s.files { active = none } }) k.4
rotated-IsFresh a s (some t) k =
    rw (k.2, k.3)
      (fresh-IsFresh a (record s { files = renamed (record s.files { active = some t }) }) k.4)

rotate_if_needed-cases :
    (a : Answers) (n : ℕ) (s : Logger)
    → Succeeds a
    → ((rotate_if_needed a n s ≡ s) × ((s.current_file_size + n) % 2 ^ 64 ≤ max_log_file_size))
      ⊎ IsFresh (rotate_if_needed a n s)
unfolding rotate_if_needed open_log_file
rotate_if_needed-cases a n s k =
    elim (Bool-cases (leb ((s.current_file_size + n) % 2 ^ 64) max_log_file_size)) [
      | inl fits ↦ inl (rw fits refl, ground arith)
      | inr over ↦ inr (
          rw over (
            let f = without_backup a s.files in
            rotated-IsFresh a (record s { files = f }) f.active k))
    ]

rotate_if_needed-room :
    (a : Answers) (n : ℕ) (s : Logger)
    → Succeeds a
    → n ≤ max_log_file_size
    → s.current_file_size ≡ length (contents s.files.active)
    → length (contents s.files.active) ≤ max_log_file_size
    → s.is_open ≡ true
    → s.is_good ≡ true
    → let t = rotate_if_needed a n s in
      (t.is_open ≡ true)
      × (t.is_good ≡ true)
      × (t.current_file_size ≡ length (contents t.files.active))
      × (length (contents t.files.active) + n ≤ max_log_file_size)
rotate_if_needed-room a n s k small same bound on good = elim (rotate_if_needed-cases a n s k) [
  | inl (e, fits) ↦ rw e (on, good, same, omega arith)
  | inr (o, g, z, f) ↦
      (o, g, z ∙ ap (λ x. length (contents x)) (sym f), rw f (omega (arith, small)))
]

log-IsTracked :
    (a : Answers) (line : Bytes) (s : Logger)
    → IsShort (a, line)
    → IsTracked s
    → IsTracked (log a line s)
unfolding log
log-IsTracked a line s (k, short) (on, good, same, bound) =
    let small : length (line_of line) ≤ max_log_file_size =
      omega (arith, length-append line (b'\n' ∷ [])) in
    let (o, g, size, room) =
      rotate_if_needed-room a (length (line_of line)) s k small same bound on good in
    let r = rotate_if_needed a (length (line_of line)) s in
    let l = length-append (contents r.files.active) (line_of line) in
    rw o (rw g (rw k.6 (refl, refl, omega (arith, size, l, room), omega (arith, l, room))))

run-IsTracked :
    (calls : List (Answers × Bytes)) (s : Logger)
    → All IsShort calls
    → IsTracked s
    → IsTracked (run s calls)
unfolding run
run-IsTracked [] s k t = t
run-IsTracked ((a, line) ∷ calls) s (k, ks) t =
    run-IsTracked calls (log a line s) ks (log-IsTracked a line s k t)

open_log_file-IsTracked :
    (b : Answers) (s : Logger)
    → Succeeds b
    → length (contents s.files.active) ≤ max_log_file_size
    → IsTracked (open_log_file b s)
unfolding open_log_file
open_log_file-IsTracked b s l bound = rw (l.4, l.5) (refl, refl, refl, bound)

-- The rotation in the constructor, where nothing is open yet.
rotate_if_needed-bound :
    (a : Answers) (s : Logger)
    → Succeeds a
    → s.current_file_size ≡ length (contents s.files.active)
    → length (contents s.files.active) < 2 ^ 64
    → length (contents (rotate_if_needed a 0 s).files.active) ≤ max_log_file_size
rotate_if_needed-bound a s k same fits = elim (rotate_if_needed-cases a 0 s k) [
  | inl (e, within) ↦ rw e (omega arith)
  | inr (o, g, z, f) ↦ rw f (omega arith)
]

size-length :
    (o : Option Bytes)
    → (if is_there o && true then length (contents o) else 0) ≡ length (contents o)
size-length none = refl
size-length (some t) = refl

create-IsTracked :
    (a b : Answers) (files : Files)
    → Succeeds a
    → Succeeds b
    → length (contents files.active) < 2 ^ 64
    → IsTracked (create true a b files)
unfolding create
create-IsTracked a b files k l fits =
    let n = length (contents files.active) in
    let s : Logger = record {
      files = files;
      is_open = false;
      current_file_size = n;
      is_good = true;
    } in
    rw (size-length files.active) (
      open_log_file-IsTracked b (if leb max_log_file_size n then rotate_if_needed a 0 s else s) l
        (elim (Bool-cases (leb max_log_file_size n)) [
          | inl big ↦ rw big (rotate_if_needed-bound a s k refl fits)
          | inr small ↦ rw small (ground arith)
        ]))

-- When the file system does what it is asked for, the active file never grows beyond ten MiB, a file
-- that was larger at the start is rotated away, and `currentFileSize_` is its size, as long as no
-- record alone is larger.
pub run-create-IsTracked :
    (a b : Answers) (files : Files) (calls : List (Answers × Bytes))
    → Succeeds a
    → Succeeds b
    → length (contents files.active) < 2 ^ 64
    → All IsShort calls
    → IsTracked (run (create true a b files) calls)
run-create-IsTracked a b files calls k l fits short =
    run-IsTracked calls (create true a b files) short (create-IsTracked a b files k l fits)

log-closed :
    (a : Answers) (line : Bytes) (s : Logger)
    → s.is_open ≡ false
    → s.current_file_size ≡ 0
    → length line < max_log_file_size
    → log a line s ≡ s
unfolding log rotate_if_needed
log-closed a line s off size short = ground (arith, length-append line (b'\n' ∷ []))

run-closed :
    (calls : List (Answers × Bytes)) (s : Logger)
    → s.is_open ≡ false
    → s.current_file_size ≡ 0
    → All (λ c. length c.1 < max_log_file_size) calls
    → run s calls ≡ s
unfolding run
run-closed [] s off size short = refl
run-closed ((a, line) ∷ calls) s off size (n, short) =
    ap (λ t. run t calls) (log-closed a line s off size n) ∙ run-closed calls s off size short

-- The rotation of a record that no longer fits, where the new file cannot be opened.
rotated-closed :
    (a : Answers) (s : Logger)
    → a.renames ≡ true
    → a.opens ≡ false
    → let t = rotated a s in (t.is_open ≡ false) × (t.current_file_size ≡ 0)
rotated-closed a s r o = ground arith

log-rotated :
    (a : Answers) (line : Bytes) (s : Logger)
    → max_log_file_size < (s.current_file_size + length (line_of line)) % 2 ^ 64
    → a.renames ≡ true
    → a.opens ≡ false
    → let t = log a line s in (t.is_open ≡ false) × (t.current_file_size ≡ 0)
unfolding log rotate_if_needed
log-rotated a line s over r o =
    let due : leb ((s.current_file_size + length (line_of line)) % 2 ^ 64) max_log_file_size
        ≡ false =
      ground (arith, over) in
    let c = rotated-closed a (record s { files = without_backup a s.files }) r o in
    rw due (rw c.0 c)

-- When a record no longer fits, `rename` does not fail, and the `open` of the new file does: the
-- stream is closed, and the file is never opened again. Whatever the file system answers to later
-- calls, their records, if each fits the limit, change nothing.
pub run-rotated :
    (a : Answers) (line : Bytes) (s : Logger) (calls : List (Answers × Bytes))
    → max_log_file_size < (s.current_file_size + length (line_of line)) % 2 ^ 64
    → a.renames ≡ true
    → a.opens ≡ false
    → All (λ c. length c.1 < max_log_file_size) calls
    → let t = log a line s in (t.is_open ≡ false) × (run s ((a, line) ∷ calls) ≡ t)
unfolding run
run-rotated a line s calls over r o short =
    let (off, size) = log-rotated a line s over r o in
    (off, run-closed calls (log a line s) off size short)
