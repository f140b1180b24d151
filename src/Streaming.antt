-- ===== src/Streaming.antt =====
-- core/anthropic/streaming and the streams that write by it.
pub mod Events
pub mod Blocks
pub mod Ledger
pub mod Contract
pub mod Usage
pub mod ToolNames
pub mod Responses
pub mod Tests
