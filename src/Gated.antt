-- ===== src/Gated.antt =====
-- spa-gated/src: the daemon of the gate.
pub mod Config
pub mod Replay
pub mod Trust
pub mod Writer
pub mod Nft
pub mod Grants
pub mod Daemon
pub mod Once
pub mod Bundle
pub mod Watch
pub mod Rollback
pub mod Cloaked
pub mod Burn
pub mod Startup
pub mod Loaded
pub mod Welcome
pub mod Address
pub mod Reload
pub mod Bootstrap
pub mod Publish
pub mod Fetch
pub mod Atomic
pub mod Fetched
pub mod Refetch
pub mod Audit
pub mod Provision
pub mod Start
pub mod Generate
pub mod Toml
pub mod Written
pub mod Generated
pub mod Provided
pub mod Ready
pub mod Started
pub mod Audited
pub mod Notice
pub mod Noticed
mod FetchTests
mod StartTests
mod RefetchTests
mod Scanner
mod GeneratedTests
mod KnockTests
mod WelcomeTests
mod PolicyTests
