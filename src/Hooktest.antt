-- ===== src/Hooktest.antt =====
-- hook/hooktest: the runner, the operating system's services and the persistent state that tests of
-- a charm use.
pub mod MemState
pub mod Runner
pub mod OsServices
pub mod Tests
