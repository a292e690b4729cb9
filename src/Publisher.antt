-- ===== src/Publisher.antt =====
-- core/publisher: who is subscribed to what, and how a change or a due time becomes messages.
-- Each call runs under the mutex of its object, so it is one step on the state.
pub mod Mailbox
pub mod Subscriptions
pub mod RateLimiter
pub mod Periodic
pub mod Notify
pub mod Publish
