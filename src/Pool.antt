-- ===== src/Pool.antt =====
-- src/pool and src/executor.rs: the pool of connections.
pub mod Registry
pub mod Routing
pub mod Calls
pub mod Reaper
pub mod Builder
pub mod Logging
pub mod Manager
pub mod Executor
pub mod Reserved
