-- ===== src/Messaging.antt =====
-- The message plumbing of the runtime: packages/actor-core-runtime/src/messaging, and the manager
-- of correlations in pure-xstate-utilities.ts beside it.
pub mod Mailbox
pub mod Correlation
pub mod DeadLetterQueue
