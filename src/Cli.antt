-- ===== src/Cli.antt =====
-- spa-client/src/main.rs: the command line. What the user sees on the terminal is not modelled; the
-- files that a command writes are, in the order in which it writes them.
pub mod Keys
pub mod Reread
pub mod Keygen
pub mod Token
pub mod Knock
pub mod Enroll
pub mod Publish
pub mod Confirm
pub mod Ending
pub mod Descriptor
pub mod Main
pub mod Wanted
pub mod Answered
pub mod Requested
pub mod Toy
mod Tests
mod KnockTests
mod ProbeTests
