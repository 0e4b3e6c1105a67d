-- ===== src/Lib.antt =====
-- A verification library for the consensus core of go-lachesis, a Byzantine fault tolerant gossip engine
-- in Go. Nodes gossip events; each event names a self-parent and an other-parent, and so the events form
-- a graph, the poset. A node derives from the graph alone, by virtual voting, which events the others
-- agree on and in which order, and cuts the order into blocks.
--
-- Paths are from the root of the repository.
--
-- The parts and the files that model them:
-- - src/common/errors.go: Common/Errors. A store error keeps its type and key.
-- - src/common/rolling_index.go: Common/RollingIndex. The code is in RollingIndex/Defs; RollingIndex/Log
--   has the specification, that the window is the end of the log of all items that were ever set, with
--   RollingIndex/Writes (Set) and RollingIndex/Reads (Get, GetItem) on top of it.
-- - src/common/rolling_index_map.go: Common/RollingIndexMap, and RollingIndexMap/Frame for what an
--   operation leaves alone.
-- - src/peers/peer.go, src/peers/peers.go, src/common/hash32.go: Peers/Peer, Peers/Registry.
-- - src/poset/roundInfo.go: Poset/RoundInfo; event.go: Poset/Event, Poset/FlagTable (flag tables) and
--   Poset/Wire (wire forms, and ReadWireInfo of poset.go); block.go, root.go, frame.go:
--   Poset/Block; caches.go: Poset/EventsCache; store.go: Poset/Store, the interface as a record;
--   inmem_store.go: Poset/Inmem and Poset/Inmem/Rounds, and Poset/Inmem/AsStore fills the interface;
--   badger_store.go: Poset/Database (the keys and what is asked of BadgerDB and protobuf),
--   Poset/Database/Records (the methods on the database), Poset/Badger (the methods of the interface, filled
--   in by Poset/Badger/AsStore). Badger/ReadThrough is about reads after writes.
-- - src/poset/poset.go: Poset/State (the record and its constructor), Poset/Graph (the caches and
--   lamport timestamps), Poset/Ancestry (ancestor, selfAncestor, see, stronglySee), Poset/Rounds (round,
--   witness), Poset/Insert (InsertEvent), Poset/Divide (DivideRounds), Poset/Fame (DecideFame),
--   Poset/Received (DecideRoundReceived), Poset/Frames (GetFrame and createRoot, with Frames/Order), Poset/Process
--   (ProcessDecidedRounds), Poset/Signatures (ProcessSigPool, CheckBlock), Poset/Reset (Reset and
--   GetAnchorBlockWithFrame), Poset/Bootstrap (Bootstrap, and the five steps that follow InsertEvent:
--   DivideRounds, DecideFame, DecideRoundReceived, ProcessDecidedRounds, ProcessSigPool).
-- - What a method changes stands below its file: Insert/Queues, Divide/Queue, Divide/Dealt, Fame/Flags,
--   Received/Rest, Process/Progress and Process/Removal, Signatures/Anchors, Signatures/Pool, Reset/Base; Poset/Advance
--   puts them together. They rest on
--   Poset/Queries, which is about what the questions on the graph leave alone (Queries/Caches, Graph,
--   Sight, Rounds, Frames) and about the fuel that they need (Queries/Fuel). Fame/Agreement is about the
--   votes, RoundInfo/Fame about the witnesses of a round.
-- - src/node/core.go: Node/Core (the record, the head, the in-degrees, signing), Node/Core/Diff (EventDiff,
--   OverSyncLimit, the conversions), Node/Core/Sync (Sync, AddSelfEventBlock, FastForward); Node/Signer is
--   the private key. Node/Core/Moves carries what the poset does to the core that holds it.
-- - src/node/peer_selector.go, peer_selector2.go: Node/Selector; control_timer.go with resetTimer and
--   the select of lachesis of node.go: Node/Timer, a step relation, with Timer/Alive, Timer/Race and
--   Timer/Deadlock.
-- - src/net/net_transport.go: Net/Transport, the requests that a node makes; Transport/Pool is about their
--   connections.
-- - src/net/commands.go: Node/Messages. src/node/node.go, src/node/state.go, src/proxy/proxy.go:
--   Node/Machine (the record and the short methods), Machine/Handlers (requests of others), Machine/Gossip
--   (gossip and fastForward, cut where they wait), Machine/Steps (the goroutines as a step relation).
--   Machine/Steps/Effects says what each step does to the blocks that were sent, Steps/Delivery what holds
--   over all of them, Steps/Stopping is about Shutdown.
-- - Common/Exec is the small language of the methods: a state that comes back beside the value or the
--   error, since the code does not undo what it wrote before an error. Common/Exec/Steps carries a
--   relation between the states before and after through a method, Common/Exec/Returns a property of what
--   it returns, Common/Exec/Runs an invariant and that fuel suffices; Common/Exec/Inversion takes a success
--   apart, and Common/Exec/Results puts known results together. Common/Sort is the stable sort that
--   frames and the differences of events use.
-- - Tests applies the theorems at concrete inputs.
--
-- Correspondence. An int64 is an integer with its wrap-around written out (add64, sub64 of Prelude/Int).
-- A Go map is an association list without repeated keys, and a range over it takes the order of the list;
-- Go leaves that order open. A pointer that is nil is `none`. A position out of a slice and a nil pointer
-- that is read are the error `panic`. The LRU caches, protobuf, SHA-256 and the elliptic curve are
-- parameters: Poset/Lru states what the caches promise and has an instance that keeps it. The maps inside
-- a RoundInfo or a Block, which the code shares with the store by pointer, are values that are written
-- back where the code calls SetRound or SetBlock. The texts of errors are shortened; logging is left out.
--
-- Fuel. The recursions over the parents of an event (ancestor, round, lamportTimestamp and the search for
-- sentinels) take fuel, and report `no_fuel` where it does not suffice. They follow the parents, so a
-- number above the depth of the graph is enough, or above twice the depth where two events are compared;
-- Queries/Fuel is about that. The loops of the store on disk that read one key after the
-- other until one is missing take fuel too: one more than the number of keys. The other loops are
-- structural: those over a range of rounds take the length of the range.
--
-- Goroutines. A step of Machine/Steps is a handler, or a part of gossip between two waits for a peer or for
-- the main loop; where the code gives the lock of the core up inside a handler, the handler is one step all
-- the same. A step chooses what a peer answers, which job goes on, and what number is drawn. A tick may
-- come at any time, so that the guard on the number of running gossips, which only delays a tick, is not
-- needed; the channel of blocks is never full. In Timer the ticks are of one timer, the main
-- loop stays in lachesis, and a goroutine that calls resetTimer reads the flag in one step and sends in
-- another. The record `handed` of a node is not in the code: it keeps the calls of the application's
-- CommitBlock, and the only place that writes it is the call itself.
--
-- Two more places where the model stands for the code: the root of a frame whose self-parent would be a
-- nil pointer is a `panic` when the frame is built, and the blocks go to a channel that is always there.
--
-- Not modelled: the opening and loading of a database with its participants and root events, the listening
-- side of the transport and the other transports, the proxies with their connections, the tools that
-- compare nodes, and the commands, which are I/O and glue around this core. Of the node its statistics and
-- the getters that hand on one of the store are left out, and of the poset the choice of a random flag
-- table, whose result the selector does not use.

pub mod Prelude
pub mod Common
pub mod Peers
pub mod Poset
pub mod Node
pub mod Net
pub mod Tests
