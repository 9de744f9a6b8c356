-- ===== src/Logger/File/Records.antt =====
-- The records that src/log/Logger.cpp keeps over its rotations.
use lmonitor.Base.{ℕ, ◌≡◌, true, ◌&&◌, ◌||◌, [], ◌∷◌, ◌++◌, some, if◌then◌else◌, ◌⊎◌, take}
use lmonitor.Base.Text.{Bytes}
use lmonitor.Logger.File.{Files, Logger, Answers, contents, is_there}

-- What the two files hold, oldest first.
abbrev pub all_of : Files → Bytes
all_of f = contents f.backup ++ contents f.active

-- The text that a rotation gives up.
abbrev dropped : Answers → Files → Bytes
dropped a f =
    if (is_there f.active && a.renames) || (is_there f.backup && a.sees_backup && a.removes)
    then contents f.backup
    else []

abbrev pub line_of : Bytes → Bytes
line_of log_line = log_line ++ b'\n' ∷ []

-- What a call of `log` does with the record, of which the first `k` bytes reach the file.
abbrev pub Kept : Logger → Bytes → Logger → Type 0
Kept s text t =
    (d : Bytes) × (k : ℕ) × ((d ≡ []) ⊎ (d ≡ contents s.files.backup))
    × (all_of s.files ++ take k text ≡ d ++ all_of t.files)
    × (t.is_open ≡ true
        → t.is_good ≡ true
        → (take k text ≡ text) × ((p : Bytes) × (t.files.active ≡ some (p ++ text))))
