-- ===== src/Logger/File.antt =====
-- The file of src/log/Logger.cpp and its rotation. What the file system answers is an argument of
-- each call; `log` holds the mutex from the rotation to the end.
pub mod Records
pub mod Limit
mod Tests
use lmonitor.Base.{
  ℕ, ◌+◌, ◌*◌, ◌%◌, ◌^◌, Bool, true, false, ◌&&◌, List, [], ◌∷◌, ◌++◌, Option, none, some,
  if◌then◌else◌, leb, length, take,
}
use lmonitor.Base.Text.{Bytes, codes}
use lmonitor.Logger.{Level, level_to_string}

abbrev pub max_log_file_size : ℕ
max_log_file_size = 10 * 1024 * 1024

-- The active file and `.1`, each with its contents if it is there.
pub record Files : Type 0 where
  pub active : Option Bytes
  pub backup : Option Bytes

pub record Logger : Type 0 where
  pub files : Files
  -- `logFile_.is_open()`; an open stream writes at the end of the active file.
  pub is_open : Bool
  pub current_file_size : ℕ
  -- No state bit of the stream is set; with one set, `<<` writes nothing.
  pub is_good : Bool

-- Whether the calls of one rotation succeed: `exists` twice, `remove`, `rename`, the `open` behind
-- the rotation or in `openLogFile`, and `file_size`; and whether the record is written, and if not,
-- how many of its bytes reach the file before the disk is full.
pub record Answers : Type 0 where
  pub sees_backup : Bool
  pub removes : Bool
  pub sees_active : Bool
  pub renames : Bool
  pub opens : Bool
  pub sizes : Bool
  pub writes : Bool
  pub reaches : ℕ

abbrev pub contents : Option Bytes → Bytes
contents none = []
contents (some text) = text

abbrev pub is_there : Option Bytes → Bool
is_there none = false
is_there (some text) = true

-- An `open` for appending, which makes a file that is missing.
abbrev pub opened : Answers → Logger → Logger
opened a s = record s {
  files = record s.files { active = some (contents s.files.active) };
  is_open = true;
  is_good = true;
  current_file_size = if a.sizes then length (contents s.files.active) else 0;
}

unfoldable pub open_log_file : Answers → Logger → Logger
open_log_file a s = if a.opens then opened a s else record s { is_open = false }

-- The `open` that truncates.
abbrev pub fresh : Answers → Logger → Logger
fresh a s =
    if a.opens
    then record s {
      files = record s.files { active = some [] };
      is_open = true;
      is_good = true;
      current_file_size = 0;
    }
    else record s { is_open = false; current_file_size = 0 }

-- `exists` and `remove` of the old backup
abbrev pub without_backup : Answers → Files → Files
without_backup a f =
    if is_there f.backup && a.sees_backup && a.removes then record f { backup = none } else f

abbrev pub renamed : Files → Files
renamed f = record { active = none; backup = f.active }

-- `exists` and `rename` of the active file, and what opens it again.
abbrev pub rotated : Answers → Logger → Logger
rotated a s =
    if is_there s.files.active && a.sees_active
    then (if a.renames then fresh a (record s { files = renamed s.files }) else open_log_file a s)
    else fresh a s

-- The sum is a std::size_t.
unfoldable pub rotate_if_needed : Answers → ℕ → Logger → Logger
unfolding open_log_file
rotate_if_needed a incoming_bytes s =
    if leb ((s.current_file_size + incoming_bytes) % 2 ^ 64) max_log_file_size
    then s
    else rotated a (record s { files = without_backup a s.files })

-- What `<<` and `flush` bring to the file, and whether the stream is good behind them.
abbrev pub written : Answers → Bytes → Bool → Bytes × Bool
written a text false = ([], false)
written a text true = if a.writes then (text, true) else (take a.reaches text, false)

-- `log` does not look at the state of the stream: the size grows by the whole record.
abbrev pub write : Answers → Bytes → Logger → Logger
write a text s =
    let (landed, is_good) = written a text s.is_good in
    record s {
      files = record s.files { active = some (contents s.files.active ++ landed) };
      is_good = is_good;
      current_file_size = (s.current_file_size + length text) % 2 ^ 64;
    }

-- The line of a record, with the time and the thread as they are printed.
abbrev pub line_for : Bytes → Level → Bytes → Bytes → Bytes
line_for timestamp level thread message =
    timestamp
    ++ (codes " ["
        ++ (level_to_string level
            ++ (codes "]" ++ (codes " [thread=" ++ (thread ++ (codes "] " ++ message))))))

-- `log`, on the line with its time, level and thread, less the output to the terminal.
unfoldable pub log : Answers → Bytes → Logger → Logger
unfolding rotate_if_needed
log a log_line s =
    let text = log_line ++ b'\n' ∷ [] in
    let t = rotate_if_needed a (length text) s in if t.is_open then write a text t else t

-- The constructor, with the directory there; `sees` is the first `exists` and `file_size`.
unfoldable pub create : Bool → Answers → Answers → Files → Logger
unfolding rotate_if_needed open_log_file
create sees a b files =
    let size = if is_there files.active && sees then length (contents files.active) else 0 in
    let s : Logger = record {
      files = files;
      is_open = false;
      current_file_size = size;
      is_good = true;
    } in
    open_log_file b (if leb max_log_file_size size then rotate_if_needed a 0 s else s)

unfoldable pub run : Logger → List (Answers × Bytes) → Logger
run s [] = s
run s ((a, line) ∷ calls) = run (log a line s) calls
