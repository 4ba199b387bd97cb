-- ===== src/Streaming.antt =====
-- streaming.go: structured streams, the server's writer and the client's reader.
pub mod Writer
pub mod Reader
pub mod Server
pub mod Wire
pub mod Invariant
pub mod Calls
pub mod Safety
pub mod Reach
pub mod Order
pub mod Liveness
pub mod Panic
pub mod Carried
pub mod Emitted
pub mod Failing
pub mod Failure
pub mod Receive
pub mod Delivery
pub mod EndToEnd
