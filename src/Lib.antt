-- ===== src/Lib.antt =====
-- Verification of the core of dst-server, which runs dedicated game servers: what a room does after
-- a failure of the game, when it is open, when its mods are updated, when an abandoned world is made
-- anew, what the driver of a game process makes of its output, how requests cross the wire between
-- callers and the Agent, and how the files of a deployment are quoted and edited. Paths are from the
-- repository's root.
--
-- The Agent (crates/dst-server/src/agent.rs) calls two modules of pure decisions over the state
-- that it persists for a room. Each is a function of the stored state, the time and what the Agent
-- observes; the Agent stores the new state before it acts on the answer. A call that fails stores
-- nothing, so a model gives an error without a state.
--
--   Base       the shared vocabulary: lists and Boolean tests over the native numbers, fallible
--              results, texts and maps in key order, signed integers, and binary64 numbers.
--   Ranges     half-open ranges and the loop that joins them, which policy.rs has twice.
--   Recovery   crates/dst-server/src/recovery.rs. State has the types and `RecoveryState`'s methods,
--              Snapshots the current save, the choice of a rollback's target and its check before
--              a resumption, Decide the answer to a failure, Operations every public operation on
--              the stored state. Trace strings the operations together,
--              Starts and Budget count the launches of a history.
--   Policy     crates/dst-server/src/policy.rs. Windows and Schedule have the opening hours, Inputs
--              what the Agent observes, Mods the maintenance of mods, State the persisted state and
--              the detection of a changed clock, Activity the record of who was in the room, and
--              Plan a tick of the policy.
--   Driver     crates/dst-server/src/driver.rs. State has the types, Handlers the frames about the
--              world and its health, Replies the answers to requests, Requests the steps of a
--              request, the end of the process, its lifecycle lines and its telemetry, and Steps
--              strings these together as events. The channel on which a request's sender waits is
--              kept at both ends: in the pending request, and as `receiver` in the shared state,
--              where an answer stays when the request is dropped.
--   Model      crates/dst-server/src/model.rs. Json has the values, Requests the requests, errors and
--              envelopes, Methods the registry of methods, Validation the checks of single fields,
--              Countdowns those of a countdown's parameters and template, Envelopes the rest.
--   Rpc        crates/dst-server/src/rpc/codec.rs, over the types of crates/dst-server/schema/
--              room.capnp. Values has the budget and the writing and reading of values, Schema the
--              requests on the wire, Requests their writing and reading, Envelopes those of errors,
--              outcomes and envelopes, with `read_outcome` of crates/dst-server/src/rpc.rs.
--   Deployment crates/dst-server/src/deployment.rs. Quoting has the values of unit files, UnitName
--              the escaped names of units; systemd's own reading of a name is not modelled.
--   Lua        crates/dst-server/src/lua.rs. Strings has the string literals and the newlines, Depth
--              the check of how deep a script nests, before full_moon parses it.
--   Rooms      crates/dst-server/src/rooms.rs. Pointers has the JSON Pointers at which a room's
--              configuration is read and edited.
--   Files      crates/dst-server/src/files.rs. Permissions has the editing of the player lists.
--
-- A caller encodes an envelope, which validates it, and the Agent reads it, which validates it
-- again; the Agent's answer goes back as an outcome.
--
-- The driver is apart from these decisions: it holds the state of one game process behind a lock,
-- and each critical section is one function from state to state here. A frame that is not
-- acceptable keeps what was changed before the error, as in the source, and then stops the driver.
--
-- A helper function of the source is one definition here; a longer body is cut into its stages,
-- each named for what it does, composed in the order of the source. Early returns are branches. A
-- change to `self` returns the new record. Every guard and error text is the source's; an index or
-- an `unwrap` that could panic is an error of its own kind.
--
-- Numbers: snapshot numbers, attempts and times in milliseconds are natural numbers, with the
-- overflow test of the source written out. An instant is a number of nanoseconds since the earliest
-- instant of chrono, so that its range is a bound from above; a signed time is an integer. `f64` is
-- modelled exactly, as a whole multiple of the smallest positive number. A `BTreeMap` is the list
-- of its entries in key order, and a `BTreeSet` of texts the list of its items.
--
-- chrono, chrono-tz and std::time are the parameter `Chrono` (Policy/Time): the range of instants
-- and dates, the time zones, and for each zone the local date of an instant and the instants of a
-- local time. The theorems hold for every such parameter.
--
-- serde_json's values are, for the driver, the parameter `Json` (Driver/State): the tests and readings of a parsed
-- value that the driver uses. A new identity (ULID) is an argument.
--
-- serde_json's numbers, which keep their text, are the parameter `Numbers` (Model/Json), with the
-- laws of `NumberLaws` (Rpc/Values/RoundTrip); the values around them are data. The tables of
-- Unicode and the reach of the clock are the parameter `Host` (Model/Validation). capnp is present
-- as the data that its readers give, where a pointer that cannot be followed carries a report, and
-- as the parameter `Sizes` (Rpc/Envelopes), which tells the size of a message.
--
-- full_moon's tokens are data (Lua/Strings, Lua/Depth), and its table of binary operators is the
-- parameter `has_precedence`.
--
-- A text of the wire and of a request is a native string; where the source goes over bytes or over
-- the characters of a text, it is the list of these as numbers, with UTF-8 written out in Base.
--
-- The search for a local time that exists runs over 1441 minutes, and the opening hours over six
-- dates, as in the source; no other loop needs a bound.
--
-- Not modelled: the JSON documents in which the state is stored, with `load` and `save` and the
-- previous layout that recovery.rs reads (a stored state is taken to be read back as it was); the
-- notices of a manual countdown; serde's decoding of requests from JSON and the descriptions of
-- methods; Lua's tables, which are a walk over full_moon's syntax tree; the tasks of rpc.rs, which wait for messages; the unit files of a deployment as a whole
-- and the files of a room, which are input and output; the rest of the Agent, which is input and output around these
-- decisions; of the driver, the cutting of its output into frames, its subscribers, and the waiting
-- of its async functions.
pub mod Base
pub mod Ranges
pub mod Deployment
pub mod Driver
pub mod Files
pub mod Lua
pub mod Model
pub mod Policy
pub mod Recovery
pub mod Rooms
pub mod Rpc
