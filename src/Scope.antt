-- ===== src/Scope.antt =====
-- services/longctx-svc/longctx_svc/scope: which directory a session works in, by the paths that its
-- turns mention.
pub mod Paths
pub mod Cluster
pub mod Tracker
