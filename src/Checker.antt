-- ===== src/Checker.antt =====
-- The health checker of ic-healthd (cmd/ic-healthd/checker).
pub mod Types
pub mod Step
pub mod Config
pub mod World
pub mod Events
pub mod Actions
pub mod Results
pub mod Sound
pub mod Fold
pub mod Rounds
pub mod Replies
pub mod Loop
pub mod Wake
pub mod Verdicts
pub mod Room
pub mod Inbox
pub mod Jitter
mod Tests
