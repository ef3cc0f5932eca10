-- ===== src/Client.antt =====
-- spa-client/src/lib.rs: the knock client. The file system, the resolver and the socket, the clock and
-- the random generator are not part of the repository: what they answer in an attempt is an argument.
pub mod File
pub mod Knocker
pub mod Retry
pub mod Sized
pub mod Lines
mod Tests
