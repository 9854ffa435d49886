-- ===== src/Modes.antt =====
-- server/mode_config.py: the modes that the server knows.
pub mod Values
pub mod Sections
pub mod Policies
pub mod Model
pub mod Parse
pub mod Load
pub mod Chat
pub mod Save
pub mod Manager
pub mod Consistency
pub mod Loading
pub mod Written
pub mod Reread
pub mod Reloaded
pub mod Saved
pub mod Overrides
pub mod Running
pub mod Blocks
pub mod Export
pub mod Exported
mod Tests
