-- ===== src/Tests.antt =====
-- Runs of the model on concrete data: a small database, and the theorems applied to it.
mod Fixtures
mod Codecs
mod Lists
mod Timelines
mod Inbox
mod Requests
mod Feed
mod Incidents
mod Policies
mod Escalations
mod Tiers
mod Admins
mod Sessions
mod Notes
mod Creations
