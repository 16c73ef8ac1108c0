-- ===== src/Core.antt =====
-- Core: status codes and results, shared types, and string utilities.
pub mod Status
pub mod Types
pub mod Text
pub mod Glob
pub mod Json
pub mod WinError
pub mod FileUtil
pub mod Codes
