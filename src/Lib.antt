-- ===== src/Lib.antt =====
-- EcoTrack API: an incident is reported into a public pool, an organisation claims it, moves it
-- through the stages of its own workflow and has volunteers clean up, alone (tasks) or together
-- (events). The services are under src/modules.
--
-- Parts and files:
--   Common          shared helpers: tests, lists as tables, ordering, texts, and their lemmas
--   Db              src/database/schema as one record per table (Rows) and one record of all tables
--                   (Tables); a request as a state passing computation that returns or throws
--                   (Transaction), what a request leaves alone (Frames) and what
--                   a loop of requests establishes (Loops)
--   Platform        src/modules/audit, the rows of src/modules/notifications, and the outbox of
--                   src/modules/notifications/dispatch
--   Workflow        src/modules/workflow: slugs, stages and their positions (Stages, Stages.Changes),
--                   rules (Rules); proofs in Slug.Suffixes, Stages.Free, Stages.Reorder,
--                   Stages.Seeding, Positions and Eligibility
--   Incidents       src/modules/incidents: reports, the claim (Pool), what an organisation does with
--                   an incident (Actions), the automatic advance that tasks and events share
--                   (Advance); proofs in Frames, Effects,
--                   Listing and Lifecycle
--   Tasks           src/modules/tasks: creation, assignment, progress and lists; proofs in
--                   Assignees and Completion
--   Events          src/modules/events: creation, the status machine and attendance; proofs in
--                   Capacity, Attendees and Transitions
--   Users           src/modules/users: lookups, provisioning and updates; the deletion of an account
--                   (Deletion); proofs in Provisioning, Reassignment and Erasure
--   Members         organisation-members.service.ts of src/modules/organisations; proofs in Loops,
--                   Removal and Attendance
--   Organisations   the rest of src/modules/organisations: slugs (Names), Registration, InviteLinks,
--                   JoinRequests and Invitations; proofs in Setup, Founding, Redemption, LinkHistory,
--                   Limits, Admission, Requests, Resolution and SingleUse
--   Dispatch        the poll of src/modules/notifications/dispatch and its handlers; proofs in Delivered,
--                   Backlog and Recipients
--   Push            the message that a notification hands to the Expo SDK, of
--                   src/modules/notifications; proof in Consent
--   Auth            src/modules/auth: the account of a verified token, and the profile; proof in
--                   Validation
--   Dashboard       src/modules/dashboard: the figures of an organisation; proof in Totals
--   Delivery        the outbox over any sequence of its users' requests; proof in Once
--   Access          src/common/guards in their order; proof in Admission
--   Tests           a small database (Fixtures) and runs on it, one file per part
-- Workflow knows stages and rules only. Incidents asks it for target stages; Tasks and Events ask it
-- for the required stage before they create and advance the incident through Incidents. All of them
-- write audit rows and notices through Platform, and reminders through its outbox. The life of an
-- incident (Incidents.Lifecycle) takes in the deletion of accounts by Users.
--
-- A function carries the method's name in this library's spelling (updateStage of an incident is
-- update_incident_stage, listForOrg of incidents is list_eligible, the other listForOrg and findById
-- carry their subject). A method's guards are throw_if and or_throw in the source's order, an UPDATE is
-- update_where, a DELETE delete_where, an INSERT an append, and RETURNING is the row computed.
--
-- Choices:
--   * A uuid is a number, handed out by a counter; an instant is a number; the clock stands still
--     during a request. A request is one step: the transaction of TenantInterceptor rolls back when the
--     handler throws, so a failed request has no state. The writes to an
--     incident (claim, reject, markDuplicate, updateStage) are definitions of their own, and the
--     theorems on any sequence of writes let other requests come between a check and its UPDATE; a
--     rejection, a duplicate mark, a move and an advance are those of callers that have seen the
--     incident claimed.
--   * An exception keeps its class and its message, without the values the message quotes.
--   * The writes of UsersService run on a connection of their own; the model has them in the order of
--     the source, in the same step. The acceptance of an invite link is split like the claim.
--   * The deletion of a user takes the rows with it to which the foreign keys cascade, and what it does
--     before is under the row-level security of migration 0003, given by the organisations it sees.
--   * A poll of the outbox is one transaction: where a statement fails, the handlers that follow fail
--     too, each error is caught, and the COMMIT rolls back. Which dispatches fail is a parameter, and so
--     is the order in which the claim's UPDATE returns its rows. A poll is one step, which finds no row
--     locked, so that SKIP LOCKED skips none.
--   * The DTO of the notification toggles has every key, undefined where the client left it out.
--   * A token's random bytes are arguments and its hash is a parameter; days and hours have their
--     usual length, whatever the local calendar does.
--   * uniqueSlug and generateUniqueSlug are loops on fuel: one try more than there are stages, or
--     organisations, since each failed try meets the slug of one. Slugs and email addresses fold ASCII
--     letters only. All other loops are structural.
--   * ST_DWithin (PostGIS), the bounding box that goes with it, which is in floating point,
--     Date.toISOString and the SDK's isExpoPushToken are parameters. The push that
--     a notification starts is not awaited and writes nothing, so that no other request has it.
--   * The primary key of event_incidents is checked on insert; so are the UNIQUE
--     indexes on emails, tokens and standing join requests, and the deferred one on stage positions at
--     the end of reorderStages; other constraints are hypotheses where a
--     theorem needs them (unique identifiers) or follow from the code.
-- Not modelled: row-level security (but for the deletion of an account), what the Expo SDK does with a
-- message, signed media URLs, PostGIS queries (nearby and pool lists), the public statistics, the verification of a token's signature, controllers
-- and the validation of their input.
pub mod Common
pub mod Db
pub mod Platform
pub mod Workflow
pub mod Incidents
pub mod Dashboard
pub mod Push
pub mod Tasks
pub mod Events
pub mod Delivery
pub mod Access
pub mod Users
pub mod Auth
pub mod Members
pub mod Organisations
pub mod Dispatch
pub mod Tests
