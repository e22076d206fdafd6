-- ===== src/Orchestrator.antt =====
-- core/orchestrator/src/tcp_server.rs, with core/orchestrator/src/snapshot.rs and the tables that
-- core/orchestrator/src/db.rs writes: how the orchestrator handles the bridge's messages. What a call of
-- the database, the file system, the socket or the generator of identifiers returns is an argument; none
-- or false is a failure. The handling of a message takes no time: `Instant::now` and `Utc::now` are its
-- instant. A table is the list of its rows, the newest first; a map is the list of its
-- entries, in whose order `drain` takes them.
pub mod Tables
pub mod Proposals
pub mod Rollback
pub mod Handler
pub mod Audit
pub mod Audited
pub mod Trail
pub mod Gate
pub mod Drop
pub mod Outcome
pub mod Counted
pub mod Budget
pub mod Once
pub mod Ticks
pub mod Keys
pub mod Preserved
pub mod Distinct
