-- ===== src/Alert/Manager/Configured.antt =====
-- The thresholds that the constructor of AlertManager reads, src/alert/AlertManager.cpp.
use lmonitor.Base.{◌≡◌, refl, [], some, ok, arith}
use lmonitor.Base.Text.{Bytes, codes}
use lmonitor.Base.Lines.{lines, has}
use lmonitor.Base.Number.{pos}
use lmonitor.Config.{Config, load}
use lmonitor.Config.Sections.{IsSectioned, get-sectioned}
use lmonitor.Float.{Float}
use lmonitor.Alert.Manager.{create}

-- From a file of sections the constructor takes its defaults, 5 seconds, 80 and 90 percent, whatever
-- the file says: it asks for keys with no section.
pub create-sectioned :
    {D : Type 0} (F : Float D) (text : Bytes) (c : Config)
    → IsSectioned (lines text)
    → create F (load (some text) c).1
      ≡ ok (record {
        alerts = [];
        fire_duration = pos 5;
        cpu_threshold = F.of_nat 80;
        memory_threshold = F.of_nat 90;
      })
unfolding create has
create-sectioned F text c s =
    let fire = (get-sectioned F.stod text (codes "fire_duration") c s refl).1 (pos 5) in
    let cpu = (get-sectioned F.stod text (codes "cpu_threshold") c s refl).2 (F.of_nat 80) in
    let memory = (get-sectioned F.stod text (codes "memory_threshold") c s refl).2 (F.of_nat 90) in
    ground (arith, fire, cpu, memory)
