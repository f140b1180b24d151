-- ===== src/Sessions.antt =====
-- The coding sessions of src/luicode/application/code_sessions.
pub mod Models
pub mod State
pub mod Progress
pub mod Turns
pub mod Binding
pub mod Tests
