-- ===== src/Executor.antt =====
-- internal/executor/worker.go: the worker that takes a card through the steps of a campaign.
pub mod Types
pub mod Actions
pub mod Profile
pub mod Advance
pub mod Retry
pub mod Activate
pub mod Delivery
pub mod Answer
pub mod Dispatch
pub mod Steps
pub mod Sequence
pub mod Forgets
pub mod Order
pub mod Terminal
pub mod Retries
pub mod Failing
pub mod Counter
