-- ===== src/Hook.antt =====
-- Package hook: the context that a hook runs in, the registry of what a charm registers, the
-- dispatch of hooks and commands, and the persistent state.
pub mod Context
pub mod Juju
pub mod Registry
pub mod HookName
pub mod State
pub mod Main
pub mod Query
pub mod Environment
pub mod Actions
pub mod Exec
mod Tests
