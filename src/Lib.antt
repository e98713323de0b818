-- ===== src/Lib.antt =====
-- hydra-server: a self-hosted server for the Hydra launcher, in Rust (`src/`). This library models
-- the parts of it that keep a player's saves, and the rules around them.
--
-- The parts and their files:
--   Shared        the lemmas and notation the others share. Shared/Tables has SQL statements on a
--                 table held as a list of rows.
--   Json          the values of serde_json that an error carries.
--   ApiError      src/error.rs. `Result` is `ApiResult`; `ApiError.body` is the body that is sent.
--   Limits        src/limits.rs: an account's overrides and the limits in force (`from_row`,
--                 `resolve`, `overrides`, `for_user`, `save`).
--   Storage       src/storage.rs: metering, the quota boundary, blob keys, the disk and the claims
--                 of signed links. A link is known by its claims. Uploads has `QuotaGate` and
--                 `InFlightUploads`, Body the handler `upload` at the files of one key, Links the
--                 quota check of a presign and the links whose key is a text. Landed and Pieces are
--                 about what uploads leave.
--   CloudSaves    src/cloud_saves.rs and migrations/0008_cloud_saves.sql. State has the tables,
--                 Request the request types and the checks of a request, Prepare
--                 `prepare_snapshot`, Commit `commit_snapshot`, Manage `delete_snapshots`,
--                 `delete_snapshot` and `restore_snapshot`, Read the handlers that only read, and Gc
--                 `sweep_stale_pending` and `collect_orphan_blobs`. Invariant and its children are
--                 about the tables under every statement, Reach about sequences of requests, and the
--                 other files each about what their opening comment names.
--   RateLimit     src/ratelimit.rs (`check`, `record_failure`, `record_success`).
--   ClientIp      src/client_ip.rs: the address that a request is counted under.
--   Triggers      src/triggers.rs: `Trigger::validate` and, in Timer, `Trigger::next_run`.
--   Schedule      src/schedule.rs: the tasks and their changes, in Running a run from its claim to what it
--                 records (`run` is `begin_run`, the job, and `end_run`), in Due which tasks ask to run.
--                 Claims is about runs that interleave, Punctual about timers after a run.
--   Achievements  src/achievements.rs: the merge, in Stored the table and the profile's statistics.
--   Combined      src/combined_achievements.rs: the links between stores' games; in Lookups the definitions
--                 with their cache and the unlocks, in Groups how achievements of two stores are paired.
--   HiddenGames   src/hidden_games.rs.
--   Souvenirs     src/souvenirs.rs: Authorize reserves a capture, Claim claims it in a sync (with `sync`
--                 of src/achievements.rs), Manage has likes, reports, visibility, deletion and the
--                 sweep. Steps is about sequences of requests, Reserved, Retry and Through about what a
--                 launcher repeats.
--   Emulation     src/emulation.rs: emulator saves and their slots.
--   Tests         concrete runs and instances of the theorems, with the Tests under
--                 the other folders.
--
-- How they interact: a handler of cloud_saves.rs takes the whole `Store` and returns its answer and
-- the store after it. It asks Limits for the account's quota and whether older saves may be deleted,
-- and Storage for what is on disk and for links; its errors are those of ApiError.
-- The sign-in forms ask RateLimit under a key made of the form and the address that ClientIp finds.
-- A sync of achievements stores the merged list and then claims souvenirs against it; the statistics
-- leave out what HiddenGames holds. Souvenirs and Emulation ask Storage/Links for the quota check and
-- for links. A run of Schedule takes its next time from Triggers/Timer.
-- Tables are called in order where they have `IsValid` of CloudSaves/Invariant.
--
-- Modelling choices:
--   * A request is one step on the store, with its time and the id it draws as arguments. The
--     transactions (`commit_tx`, `delete_tx`, `restore_tx`) are functions of their own, which take a
--     row that was read earlier from a store that may have changed since.
--   * A statement does not fail, but for the primary key that a drawn id may hit. Errors of the
--     database file and of the disk are not modelled.
--   * Times are nanoseconds. Columns that hold JSON hold the decoded value.
--   * An `i64` sum wraps, as a release build's does. An `i64` that the code never makes negative is
--     a natural number.
--     The length of an emulator save is an integer, since a commit may set any, and so is what an
--     account stores. A sum of a table past the range of `i64`, which SQLite refuses, is not modelled.
--   * A JSON number is an integer, or a float that is kept by its text.
--   * A header line has a text where `HeaderValue::to_str` gives one.
--   * The times of Triggers do not overflow: chrono panics on a date past its range, which takes a
--     count of units far beyond what a calendar holds.
--   * An insert that would break a UNIQUE index answers with the error of the database.
--   * The case of letters (`to_uppercase`, `to_lowercase`) is a parameter of which nothing is assumed.
--     Trimming, prefixes and the like are functions on the characters of a text (Shared/Texts).
--   * A run's reason keeps what its label is made of, not the label. The newest run stands first in the
--     log of runs, which is the order of their ids.
--   * An event keeps its kind, its user, its game and its size, not its texts.
--   * Hex and base64 (the checksum of an upload), the calendar of chrono, the list of tasks and the
--     address parsers of std::net are parameters. The token that carries the claims of a link is not
--     modelled.
--   * The loops that search for a timer's next run are recursion on fuel: two rounds for days and
--     weeks, since the first candidate is not before midnight of the day asked at, and the fourteen
--     rounds of the source for months.
--
-- Not modelled: the rest of the server (the admin panel and portal, the listings of souvenirs, game
-- data, playtime, backups, webhooks, the log of events, metrics, the bodies of the jobs and the HTTP
-- layer), the handler that puts Combined's parts together, and what follows an upload's rename. In
-- CloudSaves an upload is a file that appears on disk with the length that arrived. The event that a
-- refused chunk records is left out of `check_chunk`.
pub mod Combined
pub mod Shared
pub mod Json
pub mod ApiError
pub mod Limits
pub mod RateLimit
pub mod Storage
pub mod CloudSaves
pub mod Achievements
pub mod HiddenGames
pub mod Souvenirs
pub mod Emulation
pub mod Schedule
pub mod Triggers
pub mod ClientIp
pub mod Tests
