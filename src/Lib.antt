-- ===== src/Lib.antt =====
-- Verification of PnyxDB, a consensus and storage engine for queries that members endorse.
--
-- The program. A node keeps the queries and endorsements it hears of in a query store. A query is
-- applicable once enough endorsements have no applicable condition, and is committed once enough
-- of them have only dropped conditions; committing it drops its dependents. The engine verifies
-- what arrives with the key ring, endorses the queries it may, and runs the operations of a
-- committed query on the stored values. Old conditions are settled by a consensus with a veto.
-- Messages are packed for the network, a lost key is recovered from several peers, and values are
-- stored with a version, which is a hash.
--
-- The files.
--   Consensus/Operation    consensus/operation.go: the conflict matrix and CheckConflict
--   Consensus/Query        consensus/query.go, and the messages of consensus/structures.proto
--   Consensus/Version      consensus/version.go
--   Consensus/Driver       consensus/interfaces.go: Store, and the laws the engine needs of it
--   Consensus/QueryStore   consensus/query_store.go. State has the types (queryInfo is QueryInfo),
--                          the readers, Endorse and checkSpeculativeState; Insert has AddQuery,
--                          AddEndorsement and cascadeMark; Check has isApplicable, CheckState,
--                          drop, commit and the checkpoints. The other children are proofs: View
--                          (what evaluation leaves alone), Meaning, Evaluate and Unique (an
--                          evaluation with no caches), Termination, Marking (cascadeMark), Terminal
--                          (drop and commit), States and Arrivals (which calls change a state),
--                          Decision (CheckState), Forward and Reachable (the store over time), Once,
--                          Cascade and Returning (cascadeMark ends), Sizes, Checking and Settling
--                          (CheckState returns, and commits a settled query). Outdated is
--                          OutdatedQueries
--   Consensus/Engine       consensus/engine.go. Node has the state and NewEngine; Apply has apply;
--                          Endorse has canEndorse, endorse and the loop of handleQuery; Handlers has
--                          handleQuery, handleEndorsement, handleCheckpoint, checkState and Submit;
--                          Pool has the pool of old conditions of Run. Signing is
--                          consensus/signatures.go, with Hash of consensus/query.go, Recovery is
--                          consensus/recovery.go. Sequence, Atomic, Conflicts, Steps, History (the
--                          engine moves its query store as the store's own operations do), Justified,
--                          Recovery/Erasure and Recovery/Agreeing are proofs
--   Consensus/Persistence  consensus/persistence.go: Dump and Load; Reloaded is a proof
--   Encoding               consensus/encoding: Uint64 and Set; Set/Entries is the set of a list of
--                          elements, which Set/Refinement, Set/RoundTrip and Set/Made are about,
--                          and Set/Distinct the lists of distinct elements
--   Operations             consensus/operations and Operation.Exec
--   Network/Protocol       network/protocol/protocol.go: Pack and Unpack
--   Network/Gossipsub      network/gossipsub/gossipsub.go: run, Accept with its goroutines, and
--                          Broadcast; Steps is their interleaving, Places, Entries, Keeping,
--                          Delivery and Stuck are proofs
--   Network/Redis          network/redis/redis.go: Broadcast and the loop of Accept; Reading is a
--                          proof
--   Network/Recovery       network/gossipsub/recovery.go: RequestRecovery and
--                          checkRecoveryResponses; Stream has AcceptRecovery and recoveryStream,
--                          Peers is a proof
--   Server                 server/server.go: Get, Members, Contains and Submit; Sets and Submitted
--                          are proofs
--   Client                 client: Run, the table of commands and the commands; Session connects
--                          it to the server; Expressions, Sorting and the rest of Session are proofs
--   Storage/Bolt           storage/boltdb/driver.go: Get, Set and SetBatch; Listing has List, Lawful
--                          is a proof
--   Keyring/Trust          keyring/trust.go: the levels, Min and Add
--   Keyring/Web            keyring/keyring_trust.go: buildTrustWeb, trustedUnsafe and the tests of
--                          Trusted and Verify on a web that is built; Rooted and Rounds are proofs
--   Keyring/Ring           keyring/keyring.go and keyring/keyring_trust.go: the ring, its flag stale
--                          and the reading operations; Members has AddPublic, AddSignature, Sign,
--                          Verify and Import, and Export writes the ring; Rebuilt, Lazy and
--                          Saved are proofs
--   Bbc                    consensus/bbc/veto.go: Execute
--   Base                   shared: native lists, maps, options, Boolean tests
--   Examples               runs at concrete inputs
--
-- How the code is modelled. A Go map is an association list, whose order is an order of `range`;
-- the statements hold for every list, and where a range gives an order away, as in Members, the
-- order is a parameter. A pointer that may be nil is an option. An operation takes
-- the state and returns it; the locks of the query store and of the key ring make each exported
-- operation one step, and `Step`, `Reach`, `History` and `Calls` are the steps in any order. A
-- handler of the engine is one step; the loop of handleQuery is one step for each round, since it
-- sleeps between two of them. A goroutine of the gossip network is taken apart at each point at which
-- it may wait for a lock, a channel or a context. The channels between the engine's goroutines are
-- lists, and the caches of hashes and checkpoints may lose entries at any time. A Go panic is the
-- value `fault`, `crash` or `panicked`.
--
-- Fuel. isApplicable, cascadeMark and checkState recurse on the stored data, on fuel; `none` or
-- `no_fuel` is a recursion deeper than the fuel. A query whose conditions have no cycle needs as
-- much as its longest chain of conditions; the marks of cascadeMark need no more than the number of
-- queries and two, and CheckState no more than the larger of the two. UnmarshalBinary of sets runs on
-- the length of its input, since each round takes eight bytes. buildTrustWeb takes one round for each
-- key that joins its queue, and one more.
--
-- Parameters. The protobuf, gob, PEM and JSON libraries, floats of any precision (BigFloat) with
-- their panics, what libp2p has delivered of a response when its stream is reset, ToLower, the hash
-- functions, the cipher engine, what BoltDB refuses (accepts), what the network takes, the
-- identifiers of checkpoints and of new queries; for the client gRPC (Remote), durations and clocks,
-- ToUpper and the bytes of a string (Library).
--
-- Not modelled. The unreliable network, the commands, what opens and closes connections; the key
-- ring's CreatePrivate, which draws a key; a key that was imported with no map of signatures, to
-- which AddSignature cannot add; timers, sleeps and the wait for room in the engine's channels; locks
-- and goroutines, beyond the order of events.
pub mod Base
pub mod Consensus
pub mod Encoding
pub mod Operations
pub mod Network
pub mod Server
pub mod Client
pub mod Storage
pub mod Keyring
pub mod Bbc
pub mod Examples
