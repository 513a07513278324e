-- ===== src/Server.antt =====
-- server.hpp: requests and responses on the wire, who may do what, and the dispatch to an engine.
pub mod Wire
pub mod Access
pub mod Dispatch
pub mod Gate
pub mod Grants
pub mod Concurrent
pub mod Net
mod Tests
