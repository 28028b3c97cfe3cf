-- ===== src/Audit.antt =====
-- src/modules/audit: writing audit rows. `record` is given the transaction's client, so it is an
-- action that a rollback undoes; `recordDenial` only leaves its work to be done later.
pub mod Record
pub mod Mapper
pub mod Timeline
pub mod Search
