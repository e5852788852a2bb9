-- ===== src/Loop.antt =====
-- moss/agent/loop.py: the control loop of one run.
pub mod World
pub mod Notices
pub mod Batch
pub mod Finish
pub mod Rounds
pub mod Turns
pub mod Last
pub mod Run
pub mod Quiet
pub mod Closed
pub mod Steps
pub mod Runs
pub mod Ends
pub mod Exits
pub mod Order
mod Tests
