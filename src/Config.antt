-- ===== src/Config.antt =====
-- internal/config: the settings of a run, from the defaults, two files and the command line.
pub mod Values
pub mod Toml
pub mod Apply
pub mod Check
pub mod Resolve
pub mod Layers
mod Tests
