-- ===== src/Repository.antt =====
-- internal/repository: the four repositories over the servers of Platform.antt.
pub mod Clock
pub mod RefreshToken
pub mod User
pub mod Session
pub mod AuditLog
pub mod Fails
