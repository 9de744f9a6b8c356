-- ===== src/Config/Tests.antt =====
-- A configuration file, and the theorem about its keys.
use Prim.{tt}
use lmonitor.Base.{◌≡◌, refl, [], ◌∷◌, ◌++◌, some}
use lmonitor.Base.Text.{Bytes, codes, bytes_eq, bytes_key}
use lmonitor.Base.Map.{insert, lookup}
use lmonitor.Base.Lines.{lines, cut}
use lmonitor.Config.{Config, get, load, load_line, load_lines}
use lmonitor.Config.Sections.{IsSectioned}

-- The lines of config/lmonitor.conf that matter here.
abbrev pub file : Bytes
file =
    codes "# LMonitor"
    ++ 10 ∷ codes "[server]"
    ++ 10 ∷ codes "port=9000"
    ++ 10 ∷ 10 ∷ codes "[alert]"
    ++ 10 ∷ codes "cpu_threshold=95"
    ++ 10 ∷ []

abbrev pub unset : Config
unset = record { values = [] }

file-cpu_threshold : get (codes "alert.cpu_threshold") [] (load (some file) unset).1 ≡ codes "95"
unfolding get load load_line load_lines lines cut insert lookup bytes_eq
file-cpu_threshold = refl

pub file-IsSectioned : IsSectioned (lines file)
unfolding lines
file-IsSectioned = record {
  preamble = codes "# LMonitor" ∷ [];
  header = codes "[server]";
  body = codes "port=9000" ∷ [] ∷ codes "[alert]" ∷ codes "cpu_threshold=95" ∷ [];
  parts = refl;
  skipped = (refl, tt);
  is_first = (refl, refl);
  named = λ e. cc;
  all_named = (λ e f. cc, (λ e f. cc, (λ e f. cc, (λ e f. cc, tt))));
}
