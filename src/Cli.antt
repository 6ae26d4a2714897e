-- ===== src/Cli.antt =====
-- src/main.c: the arguments of the command line and the run of a command.
pub mod Arguments
pub mod Parsed
pub mod Run
pub mod Sessions
mod Tests
