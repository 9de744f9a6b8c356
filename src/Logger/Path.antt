-- ===== src/Logger/Path.antt =====
-- `Logger::detectLogFilePath` of src/log/Logger.cpp: the path of the log file, from the path of the
-- program. The functions of std::filesystem::path are an argument.
use lmonitor.Base.{◌&&◌, ◌++◌, Option, none, some, if◌then◌else◌, is_empty}
use lmonitor.Base.Text.{Bytes, codes, bytes_eq}

pub record Paths : Type 0 where
  pub filename : Bytes → Bytes
  pub parent_path : Bytes → Bytes
  -- `a / b`
  pub join : Bytes → Bytes → Bytes

module _ (P : Paths) where
  -- The directory that has the `logs` directory.
  unfoldable pub project_directory : Bytes → Bytes
  project_directory directory =
      let parent = P.parent_path directory in
      if bytes_eq (P.filename directory) (codes "build")
      then parent
      else if bytes_eq (P.filename directory) (codes "bin")
          && bytes_eq (P.filename parent) (codes "lmonitor")
      then parent
      else directory

  -- The argument is what readlink gives for /proc/self/exe, `none` for an error.
  unfoldable pub detect_log_file_path : Option Bytes → Bytes
  unfolding project_directory
  detect_log_file_path none = codes "logs/lmonitor.log"
  detect_log_file_path (some executable) =
      if is_empty executable
      then codes "logs/lmonitor.log"
      else P.join (P.join (project_directory (P.parent_path executable)) (codes "logs"))
          (P.filename executable ++ codes ".log")
