-- ===== src/Migrate.antt =====
-- src/migrate/mod.rs: live migration. The channel buffer, its cursor, frames and their codec, the tracker,
-- the loops that copy, and the settings.
pub mod Channel
pub mod Cursor
pub mod State
pub mod Codec
pub mod Rle
pub mod Bitmap
pub mod Sender
pub mod Sink
pub mod Verify
pub mod Replay
pub mod Scan
pub mod Control
pub mod Session
pub mod Settings
pub mod Export
pub mod Tracking
pub mod Precopy
pub mod Tests
