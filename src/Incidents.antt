-- ===== src/Incidents.antt =====
-- src/modules/incidents: the table of incidents, the reads behind the clearance gate and the one
-- write path of every later mutation.
pub mod Repository
pub mod Mapper
pub mod Service
pub mod Versioned
pub mod Access
pub mod Queries
pub mod Lists
pub mod Counts
pub mod Create
