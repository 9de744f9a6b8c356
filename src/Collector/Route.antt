-- ===== src/Collector/Route.antt =====
-- `detectDefaultInterface` of src/collector/NetworkCollector.cpp, on the text of /proc/net/route.
use lmonitor.Base.{Bool, List, [], ◌∷◌, Option, none, some, Result, ok, err, if◌then◌else◌, drop}
use lmonitor.Base.Text.{Bytes, codes, bytes_eq}
use lmonitor.Base.Lines.{lines}
use lmonitor.Collector.Network.{NetworkError, not_open, not_found}
use lmonitor.Collector.Process.{◌>>=◌, next_word}

-- Whether `iss >> std::hex >> flags` succeeds on a text is an argument.
module _ (reads_flags : Bytes → Bool) where
  -- The interface and the destination of a line that has the four columns.
  abbrev pub read_route : Bytes → Option (Bytes × Bytes)
  read_route line = do
    interface ← next_word line
    destination ← next_word interface.1
    gateway ← next_word destination.1
    if reads_flags gateway.1 then some (interface.0, destination.0) else none

  unfoldable pub find_default : List Bytes → Result NetworkError Bytes
  find_default [] = err not_found
  find_default (line ∷ ls) =
      let later = find_default ls in
      elim (read_route line) [
        | none ↦ later
        | some (interface, destination) ↦
            if bytes_eq destination (codes "00000000") then ok interface else later
      ]

  unfoldable pub detect_default_interface : Option Bytes → Result NetworkError Bytes
  unfolding find_default
  detect_default_interface none = err not_open
  detect_default_interface (some text) = find_default (drop 1 (lines text))
