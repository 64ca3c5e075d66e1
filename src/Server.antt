-- ===== src/Server.antt =====
-- The chat server: what it takes from its libraries (Api), the state of `ChatService` and its
-- action monad (State), the table models (Models), the handlers (Service) and the Redis link.
pub mod Api
pub mod State
pub mod Models
pub mod Replies
pub mod Service
pub mod Account
pub mod Chat
pub mod Dispatch
pub mod Returns
pub mod Atomic
pub mod Routing
pub mod Spread
pub mod Sessions
pub mod Takeover
pub mod Silence
pub mod Heartbeat
pub mod Notices
pub mod Offline
pub mod Crossing
pub mod Threads
