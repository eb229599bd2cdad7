-- ===== src/Charmbits/HttpService.antt =====
-- charmbits/httpservice: an HTTP server that a charm runs as a service. `Fields` and `Server` are the
-- process that serves (server.go), `Charm` is what its charm does in a hook (service.go).
pub mod Fields
pub mod Server
pub mod Persisted
pub mod Listeners
pub mod Warnings
pub mod Complete
pub mod FirstField
pub mod Restored
pub mod Consistent
pub mod Charm
