-- ===== src/Logs.antt =====
-- The pages over a log that is read page by page: the query log and the audit log.
pub mod QueryLog
pub mod AuditLog
