-- ===== src/Debugger.antt =====
-- src/debugger.c: the control of the process. The state is `struct cdbg` less the tables of symbols and
-- lines, the paths and the settings; what a function only prints is left out. `rounds` bounds how often an
-- interrupted `waitpid` is called again.
pub mod State
pub mod Control
pub mod Reenable
pub mod Wait
pub mod Watch
pub mod Slots
pub mod Delete
pub mod Stop
pub mod Step
pub mod Assign
pub mod Target
pub mod Backtrace
pub mod Enter
pub mod Run
pub mod Session
mod Tests
