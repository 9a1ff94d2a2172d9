-- ===== src/Lib.antt =====
-- Verification library of the server: activity events and mutable entities are pushed by devices,
-- change logs are pulled by them, and reports are derived from the events.
--
-- Parts, and how they interact:
-- - Base: shared names, tests on numbers, lists, results, `int64` and strings.
-- - Instant: `time.Time`, as nanoseconds since the zero time in UTC, a native number.
-- - Store (internal/store): TimeRange is timerange.go. Cursor is cursor.go, over Base64
--   (`base64.RawURLEncoding`) and Decimal (`strconv`). Paging is the cut of `limit + 1` fetched rows
--   into a page, which every listing endpoint does; `walk` follows a listing to its end, with a bound
--   on the number of pages, and Sorting is ORDER BY. DbErr is dberr.go.
-- - Reports (internal/reports): Window is window.go, Trim is trim.go. Bucket, Grouping and Totals are
--   dimension.go: buckets by id, raw rows grouped by bucket and device, and the totals by category,
--   app and project. Service is service.go. The queries are fields of `Queries`, and `none` is a
--   database error.
-- - Sync (internal/sync): Changelog is the table and the horizon. Prune is `PruneOnce` of
--   retention.go with the statements of internal/store/storedb/sync_retention.sql.go. Feed is the
--   page that `pull` of pull.go reads with `ListChangelogPage`. History puts commits, ticks and pulls
--   in any order, as a step relation. Push is `push` of service.go: Tables holds the rows and the
--   statements of internal/store/storedb/sync.sql.go, Apps is `resolveApp` and `resolveCategory`,
--   Events is `applyActivityEvent`, Sessions is `applyFocusSession`, Skew its clock-skew correction,
--   and Batch the loop over the items. A statement can fail at any item, as `Env` says, and each
--   commits by itself. Pull is `pull` of pull.go: Tables holds the snapshot and the lookups of
--   internal/store/storedb/pull.sql.go, Resolve is `resolveChangelogEntry`, Collect the loop over the
--   page, over the Go maps of Keyed, and Response the grouping by type and the whole of `pull`.
-- - Auth (internal/auth): Tables holds accounts, devices and refresh tokens with the statements of
--   internal/store/storedb/{users,devices,refresh_tokens}.sql.go, and Tables.Live counts the live
--   tokens of a device, and Tables.Found says what rows the device query finds. Tokens is `issueTokenPair`, Lockout the settings of service.go with
--   login_lockout.sql.go, Login is register_login.go, Refresh and Logout are refresh_logout.go, and
--   Devices and Profile are users_devices.go. Code that reads and writes the tables is an `Action` of
--   Base.Action, whose rules of proof are in Base.Action.Ensures. History puts the operations in any
--   order, as a step relation. `Env.faults` says which statements and transaction commands fail.
-- - Entities (internal/{projects,tags,categories,focussessions}): Rows is a table of rows with an id,
--   an owner, a time of deletion and a server_seq, given by a record `Entity` of operations and laws,
--   and the statements that the four services run, from
--   internal/store/storedb/{projects,tags,categories,focus_sessions}.sql.go. Reads and Requests are
--   what the requests of service.go share; Projects, Tags, Categories and FocusSessions are the
--   services. A session's device and project are looked up in the tables of Auth and of Projects.
--   Ensured in each says what its requests do, Walked follows a listing, and History puts all requests
--   in any order, as a step relation.
-- - Activities (internal/activities and internal/reports/{timeline,cursor}.go): Cursor is cursor.go,
--   Listing is `List` and `Timeline` with internal/store/storedb/activities.sql.go. An event's id is
--   a number here, which is the order of UUIDs.
--
-- Choices:
-- - A Go map is an association list; where the code iterates over one, the result is sorted or summed
--   afterwards. `sort.Slice` is insertion sort.
-- - `int64(d.Seconds())` is the quotient of the nanoseconds by a second. Totals are not wrapped at
--   2 ^ 63.
-- - A negative limit, age or batch size is 0 here: the code treats both alike.
-- - `pg_snapshot_xmin` is a number of the run that never falls, and every commit's `xid8` is at least
--   that of the moment of the commit. `changelog_id` and `server_seq` come from sequences, so they
--   are fresh.
-- - A transaction that does not commit leaves the tables as they were. In Sync.Prune it is explicit:
--   a statement writes what only the open transaction sees, a commit makes that visible, and the
--   deferred rollback drops it.
-- - UUID parsing (`pgtype.UUID.Scan` and `String`) is a parameter: the canonical spelling or nothing.
-- - A time before the zero time is 0. `time.Sub` is clamped to `int64`, as Go documents.
--
-- Not modelled: the HTTP layer, configuration, logging, password hashing and JWT, `pull` without a
-- transaction, and the ticker around `PruneOnce`.
mod Base
pub mod Instant
pub mod Store
pub mod Entities
pub mod Activities
pub mod Reports
pub mod Sync
pub mod Auth
