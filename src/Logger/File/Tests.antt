-- ===== src/Logger/File/Tests.antt =====
-- A log file at work, and the theorems about it at these inputs.
use Prim.{tt}
use lmonitor.Base.{◌≡◌, refl, true, false, [], ◌∷◌, none, some, arith}
use lmonitor.Base.Text.{codes}
use lmonitor.Logger.File.{Files, Logger, Answers, rotate_if_needed, log, create, run}
use lmonitor.Logger.File.Limit.{IsTracked, run-create-IsTracked, run-rotated}

abbrev fine : Answers
fine = record {
  sees_backup = true;
  removes = true;
  sees_active = true;
  renames = true;
  opens = true;
  sizes = true;
  writes = true;
  reaches = 0;
}

-- The disk is full of other people's files.
abbrev broken : Answers
broken = record fine { opens = false; renames = false; writes = false; reaches = 2 }

abbrev files : Files
files = record { active = some (codes "old"); backup = none }

abbrev full : Logger
full = record { files = files; is_open = true; current_file_size = 10_485_760; is_good = true }

abbrev nearly_full : Logger
nearly_full = record full { current_file_size = 100 }

-- The new file cannot be opened.
abbrev unopened : Answers
unopened = record fine { opens = false }

-- Two of the record's bytes reach the file, and nothing of the next record, though the disk has room.
torn :
    (run nearly_full ((broken, codes "new") ∷ (fine, codes "newer") ∷ [])).files.active
    ≡ some (codes "oldne")
unfolding run log rotate_if_needed
torn = refl

run-create-IsTracked_example :
    IsTracked (run (create true fine fine files) ((fine, codes "new") ∷ []))
run-create-IsTracked_example =
    run-create-IsTracked fine fine files ((fine, codes "new") ∷ [])
      (refl, refl, refl, refl, refl, refl, refl) (refl, refl, refl, refl, refl, refl, refl)
      (omega arith) (((refl, refl, refl, refl, refl, refl, refl), omega arith), tt)

run-rotated_example :
    let t = log unopened (codes "new") full in
    (t.is_open ≡ false)
    × (run full ((unopened, codes "new") ∷ (fine, codes "newer") ∷ (broken, codes "newest") ∷ [])
        ≡ t)
run-rotated_example =
    run-rotated unopened (codes "new") full ((fine, codes "newer") ∷ (broken, codes "newest") ∷ [])
      (omega arith) refl refl (omega arith)
