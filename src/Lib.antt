-- ===== src/Lib.antt =====
-- Incident API: triage, closure and escalation of incidents behind a clearance gate.
--
-- The program is an HTTP service over one database. A request reaches a service function with an
-- actor (id, role, clearance); the service loads the incident through the clearance gate, decides
-- on the row that it has read, and writes in one transaction under an optimistic lock (the version
-- of the row), with the audit events of the change. A job escalates what nobody has acknowledged.
--
-- Files and the code that they model:
-- - Base: lists, tables of rows, keys and sorting, shared by all parts.
-- - Model: src/contracts/enums.ts (Model/Enums), src/core/errors and
--   src/http/middleware/error.middleware.ts (Model/Errors), strings as UTF-16 code units
--   (Model/Text), prisma/schema.prisma (Model/Rows), the database and the process (Model/World),
--   and handlers that return or throw, with src/db/transaction.ts (Model/Exec).
-- - Policy: src/policy.
-- - Pagination: src/core/pagination.ts: offset pages (Pagination/Offset), the order of a keyset
--   (Pagination/Keyset), the three cursors with their tags (Pagination/Tokens, Pagination/Cursors)
--   and the client that follows them (Pagination/Walk).
-- - Audit: src/modules/audit: recording events and denials (Audit/Record), the timeline of an
--   incident with its redaction (Audit/Mapper, Audit/Timeline) and the search (Audit/Search).
-- - Incidents: src/modules/incidents: the repository with the CHECK constraints of
--   prisma/migrations (Incidents/Repository), the mapper with the actions offered
--   (Incidents/Mapper), reads by id (Incidents/Service), creation with its reference
--   (Incidents/Create, with src/core/ids.ts), the frame of the mutations (Incidents/Versioned), and
--   the queries behind the lists and counts (Incidents/Queries, Incidents/Lists, Incidents/Counts).
-- - Triage and Closure: src/modules/triage/triage.service.ts and
--   src/modules/closure/closure.service.ts. A mutation is its decision, a pure function of the row
--   read, inside the frame.
-- - Mutations: the eight mutations as one type, for the theorems about all of them.
-- - Escalation: src/jobs/escalation.job.ts and src/modules/escalation/tiers.repository.ts: the
--   tiers that are due, the lease of a run, one batch, and the scan around them (Escalation/Job,
--   with src/jobs/jobRun.repository.ts), the feed (Escalation/Feed), and the sets of tiers that
--   src/contracts/admin.contract.ts accepts (Escalation/TierSet).
-- - Admin: src/modules/admin: changes of a user's role, clearance and status, and the cascade of a
--   lowered clearance on the user's incidents; the lists of users and runs (Admin/Listing, with
--   src/modules/users/users.repository.ts).
-- - Investigation: src/modules/investigation: adding a note, behind its gates, and the pages of
--   notes (Investigation/Pages).
-- - Notifications: src/modules/escalation/notification.service.ts: the list of a recipient and
--   marking as read.
-- - Analytics: src/modules/analytics: the matrix, the overview and the escalation performance.
-- - Http: src/http/middleware: the rate limit, the authentication and the gate on roles.
-- - Auth: src/modules/auth: sessions and the rotation of refresh tokens (Auth/Sessions), and the
--   caller's own account (Auth/Account).
-- - Tests: a small database, and each theorem applied to it.
--
-- How the model reads the code:
-- - An id is a number that is compared for equality and order; a Date is its milliseconds. What
--   createId of @paralleldrive/cuid2 returns is a parameter of the world (supply).
-- - The clock stands still within a request and moves between requests.
-- - A statement of the database is a function on the tables. A CHECK constraint or a unique key
--   that a statement violates makes it throw. A transaction that throws puts the tables back; ids
--   that were drawn are not given back.
-- - Requests run one after another, each whole; Triage/Overwrites.antt and parts of
--   Auth/Sessions.antt are about a transaction in another world than the one that was read. For
--   the lease, the steps of other runs and of the clock are interleaved freely; whether
--   pg_try_advisory_xact_lock grants the lock is an argument.
-- - recordDenial is not awaited: it leaves a denial in the world, which recordDenialAsync writes
--   later.
-- - The strings that audit events carry are kept as the values that were printed into them.
-- - The loop of runEscalationJob recurses on fuel, one round for each incident and one more, so
--   that the rounds do not run out before the rows do (Escalation/Job/Finishes.antt). The year of
--   a date has a round for each day, and the digits of a number one for each unit. All other
--   recursion of the program is on data.
-- - What node:crypto and bcrypt compute is a parameter (Crypto of Auth.antt), and so is what the
--   storage service makes of an upload (Upload of Incidents/Create.antt), whose paths are not
--   empty. So are base64url with JSON (Codec of Pagination/Tokens.antt, which reads back what it
--   wrote), jwt.verify, the database's text search, the order of names and percentiles, and the
--   column updatedAt, which the database keeps.
-- - Rows that the ORDER BY of an offset page leaves equal come in an order that the world chooses
--   for each query (place). In the queries without pages, and in keyset pages, which end in an id,
--   they come in the order of the table.
-- - A client that follows cursors has fuel, one request for each row and one more
--   (Pagination/Walk.antt).
--
-- Not modelled: HTTP routing, controllers and the contracts that only combine checks of zod, the
-- parsing of If-Match, signed links and uploads (a signed link is the path that it is made for),
-- logging, the trend and the CSV texts of the analytics, foreign keys, and columns that no
-- modelled code reads.
pub mod Base
pub mod Model
pub mod Policy
pub mod Pagination
pub mod Audit
pub mod Incidents
pub mod Triage
pub mod Closure
pub mod Mutations
pub mod Escalation
pub mod Admin
pub mod Auth
pub mod Investigation
pub mod Notifications
pub mod Http
pub mod Analytics
pub mod Tests
