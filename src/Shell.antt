-- ===== src/Shell.antt =====
-- moss/execution/safety/shell.py: the risk classification of shell commands.
pub mod Risk
pub mod Pattern
pub mod Names
pub mod Split
pub mod Argv
pub mod Classify
pub mod Command
pub mod Fuel
pub mod Lossless
pub mod Bounds
pub mod Delete
pub mod Flags
pub mod ReadOnly
mod Tests
