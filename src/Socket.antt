-- ===== src/Socket.antt =====
-- The handlers of the socket's `message:send`, in client/socket-io.go.
pub mod Messages
pub mod Owners
pub mod Join
pub mod Leave
pub mod Kick
pub mod Delete
pub mod Capped
pub mod Handler
pub mod Refusals
pub mod Reachable
pub mod Acceptance
pub mod Joined
mod Fixture
mod Tests
mod StoreTests
