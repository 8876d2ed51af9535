-- ===== src/Lib.antt =====
-- muninn is a phone book for the nodes of a peer-to-peer network: peers register under an id and a
-- key (login and signature key), senders register the hashes of the chunks of their files, and
-- recipients confirm, report and read them with signed messages, which moves a score by which peers
-- are ranked. Short messages, signals, wait in a queue per peer.
--
-- The parts and their files (paths are from the root of the repository):
--   Model       the records of internal/model/peer.go and internal/model/quality.go.
--   Hash        `normalizeHash`, `validHashFormat` and `chunkKey` of internal/store/hash.go, and
--               `parseChunkKey` of internal/store/memory.go.
--   Sign        the signed payloads and `Verify` of internal/sign/sign.go.
--   Score       the errors, constants and `EffectiveScore` of internal/store/store.go.
--   Memory      the state of `MemoryStore` of internal/store/memory.go, and below it its methods:
--               Peers (Upsert, Refresh, Get, GetByKey, Delete, List, Heartbeat, SetPeerScore),
--               Ranking (GetBestPeers, GetBestThickPeers), Chunks (SetChunkHash, ReportChunk,
--               ConfirmChunk, ReadChunk, GetChunksByRecipient, GetChunksByFileID,
--               DeleteExpiredChunks) and Signals (SetSignal, PollSignals). Calls is the interface
--               `Store` as a type of calls and a run of calls one after the other.
--   Handler     the handlers of internal/handler/phonebook.go over the interface `Store` of
--               internal/store/store.go (Interface), from decoded values to a status and a body: Peers,
--               Chunks and Batches; Requests puts those that call the store once into one type.
--   Signalling  internal/webrtc/handler.go: the connections of the peers, what is written on them, and
--               the relay of signals, which falls back on the queue of the store.
--   Database    the tables behind `dbStore` of internal/store/db.go and internal/store/peer_store.go, and below it
--               its methods: Peers, Ranking, Chunks, Reports and Signals. Calls runs the calls of the
--               interface over the tables. Which statements fail, the order in which a SELECT finds the
--               rows and the database's clock are parameters (`Server`).
--               Outcome has what each method can end in, Tables and Rows what the statements do to
--               the rows, Invariant, Guards and Lookup what follows, and Agreement sets the tables of
--               chunks beside the entries of the memory store.
--   Migration   internal/store/migration.go: the files and their order; Run has `runMigrations` and `NewDB`.
--               The files, SHA-256 and the failures are parameters.
--   Server      main.go and internal/api/server.go: the settings, the choice of the store, the cleaner.
--   Outside     the parameters: the clock, the order in which Go walks a map, lower case beyond
--               ASCII, Base64 and Ed25519.
-- Prelude, Text, Assoc, Exec and Action carry them: 64-bit integers, texts with the parts of `strings` and
-- `strconv` that the code calls, maps, and methods that change a state and can fail or, in Action, panic. Tests holds
-- examples at concrete inputs.
--
-- A Go string is a list of code points (a Go string that is not UTF-8 has no model), an `int` or
-- `int64` an integer whose sums and products wrap around at 64 bits, an instant the nanoseconds since
-- the epoch, and a map an association list. Every method has one clock reading, taken as the instant
-- of the whole call. All loops are structural recursion; there is no fuel. Whether a write on a
-- connection succeeds, and what JSON decodes to, are parameters.
--
-- A table is a list of rows. A statement does what its text says or returns an error and does nothing; a
-- SELECT gives all its rows or an error; the methods of `dbStore` are one step each. The columns are taken to
-- hold the sums of the counters, which are integers without a bound there.
-- The UPDATE of Refresh is taken as if it had no comma in front of its WHERE; that a database refuses it for
-- the comma is a failure of the statement.
--
-- Not modelled: JSON, the upgrade of a request to a WebSocket, the matching of paths, the listener, its
-- time-outs and the shutdown (internal/api/server.go, main.go), `Close` and `jsonString` of
-- internal/store/db.go, the panic of `init` in internal/store/migration.go, logging, contexts and the
-- locks, which make a method one step. The text of a SQL statement is not modelled, but what it asks for.
pub mod Action
pub mod Assoc
pub mod Database
pub mod Exec
pub mod Handler
pub mod Hash
pub mod Memory
pub mod Migration
pub mod Model
pub mod Outside
pub mod Prelude
pub mod Score
pub mod Server
pub mod Sign
pub mod Signalling
pub mod Tests
pub mod Text
