-- ===== src/Cmd.antt =====
-- cmd/gocharm: the command that builds a Go package as a charm.
pub mod Destination
pub mod Copied
pub mod Removed
pub mod Revision
pub mod Setenv
pub mod Templates
pub mod Inspect
pub mod Filed
pub mod Build
pub mod LocalPath
pub mod Program
mod Tests
