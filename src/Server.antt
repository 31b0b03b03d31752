-- ===== src/Server.antt =====
-- The server process, core/devices/ZejfMeteo.
pub mod Lines
pub mod Reader
pub mod Interfaces
pub mod Process
pub mod Wire
pub mod Files
pub mod Clients
pub mod Commands
mod Examples
use zejf_meteo.Common.{ℕ}

abbrev pub newline_char : ℕ
newline_char = 10
