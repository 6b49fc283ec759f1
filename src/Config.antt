-- ===== src/Config.antt =====
-- src/config/config.c: the configuration and the start and end of the program.
pub mod Text
pub mod Params
pub mod Entries
mod Printing
mod Contexts
mod StartupLaws
pub mod User
pub mod Startup
pub mod Samples
mod Tests
