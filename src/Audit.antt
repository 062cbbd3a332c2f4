-- ===== src/Audit.antt =====
-- plugins/audit-enterprise/src: the entries of the audit log.
pub mod Query
pub mod Writer
