-- ===== src/Escalation.antt =====
-- src/jobs/escalation.job.ts and src/modules/escalation: the tiers, the lease, the batches.
pub mod Tiers
pub mod TierSet
pub mod Lease
pub mod Batch
pub mod Job
pub mod Feed
