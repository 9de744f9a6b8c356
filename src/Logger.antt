-- ===== src/Logger.antt =====
-- include/log/Logger.h and src/log/Logger.cpp.
pub mod Path
pub mod File
use lmonitor.Base.Text.{Bytes, codes}

-- Logger::Level
pub data Level : Type 0 where
  info warning error : Level

unfoldable pub level_to_string : Level → Bytes
level_to_string info = codes "INFO"
level_to_string warning = codes "WARN"
level_to_string error = codes "ERROR"
