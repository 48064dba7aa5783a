-- ===== src/Relay.antt =====
-- src/promo_bot/relay and the repositories behind it: the intake of Telegram messages.
pub mod SourceRows
pub mod Messages
pub mod Candidates
pub mod Checkpoints
pub mod CatchUp
pub mod Backoff
pub mod Processor
pub mod Links
pub mod Queue
