-- ===== src/Lib.antt =====
-- Spectrum Network: a verification library.
--
-- The repository is the reference implementation of a protocol for cross-chain apps. Its crates meet
-- in the node: spectrum-network moves bytes between peers, spectrum-handel and the other aggregation
-- crates run on it, and the connectors watch the chains. The library models these parts:
--
-- PeerManager: spectrum-network/src/peer_manager.rs with peer_manager/{data,peer_index,
-- peers_state}.rs. Data has the enums and `PeerInfo`, Index is `PeerIndex`, Ranking the set
-- `sorted_peers`, Handles the repository with `ConnectedPeer`, `NotConnectedPeer` and
-- `PeerInState`, Repo the trait `PeersState` on `PeerRepo`, Manager, Protocols and Events the
-- methods of `PeerManager`, and Poll its `poll_next`. Instants are arguments, a HashMap is an
-- association list and a HashSet a list without repetition, walked in the order of the list; a
-- message put in the mailbox is a step of the runs (Invariant.Runs). Peer ids and addresses are
-- numbers, of which only equality and the order are used.
-- Network: spectrum-network/src/network_controller.rs. State has its types with the commands and
-- events of the connection handler and of protocol_api.rs, Controller the events of the swarm,
-- HandlerEvents those of connection handlers, Instructions and Requests what `poll` reads, and
-- Polling its loop. Invariant, Handling, EventHandling, Answers and Runs are about the peers it
-- keeps; Away, AwayPolling, Waiting and Dialling about a peer that is dialled; Rejection about one
-- that is rejected. Connecting makes the handler of a new connection, and Delivery is about the
-- messages that wait for it; Incoming and Surplus run the controller with the peer manager. What a
-- stream has ready at the time of a call is a list, and `to_manager` and `to_handlers` are what the
-- controller puts in the mailboxes of PeerManager and of the protocol handlers.
-- Connection: spectrum-network/src/peer_conn_handler.rs. Handler has its state and the commands of the
-- controller, Substreams the events of the connection and the parts of `poll` that change the state
-- of a protocol, Transitions and Opening how a protocol is opened. Substreams and the ends of channels are
-- numbers.
-- Handel: spectrum-handel/src/{lib,partitioning,message}.rs. Partitioning is `bin_partition` and
-- `normalize`, Overlay the two orders of the levels and `BinomialPeerPartitions`, State the record
-- `Handel` with its levels and their activation, Aggregation the loops of `run_aggregation`, Sending
-- `run_fast_path` and `run_dissemination`, Round the calls that the network makes. A round works with
-- any contribution type with its operations (`Ops`) and any peer partitions (`PeerPartitions`).
-- What is proved of it is in Partitioning.Partition, Orders, Verified, Contributions, Choice and
-- Progress. In the network a round sends the messages of its outbox to peers that the manager knows.
-- TxRetry: spectrum-ergo-connector/src/rocksdb/tx_retry_scheduler.rs. Scheduler is the store of
-- `TxRetrySchedulerRocksDB` with its operations, one field for each key.
-- Algebra: algebra-core/src/combinators.rs, `EitherOrBoth`.
-- Mcast: spectrum-mcast/src/{overlay,behaviour}.rs. Overlay is `RedundancyDagOverlayBuilder`;
-- Heap has the heap of indices that its loop walks, Symmetry and Agreement what two hosts find of each
-- other. Multicasting and Broadcast are the handlers. The random generator and its shuffle are
-- parameters; a shuffle gives the same peers.
-- Kes: spectrum-kes/src/{lib,composition_utils,utils}.rs. Utils has the keys and hashes, Scheme
-- `kes_gen`, Update `kes_update`, Sign `kes_sign` and `kes_verify`. The curve and the hash are the parameter
-- `Crypto`. Tree and Bits are the abstract tree of keys and its numbers. The curve does not read every
-- digest; `TreeFits` says that it reads those of a tree.
-- Diffusion: spectrum-diffusion/src/{service,behaviour,message}.rs. Service is `RemoteSync` over the
-- trait of the history, a parameter; Behaviour has the handlers of `DiffusionBehaviour`, whose tasks
-- are lists of what they send; Verdicts is about the comparison of chains, Sync about its answer.
-- VersionedStore: spectrum-view/src/versioned_avl_storage/versioned_storage.rs. Undo is the format of
-- an undo entry, Store the operations; the database is three maps, and the serialisation of a version
-- a parameter (`VersionOps`).
-- Ledger: the types of spectrum-ledger/src/{cell,transaction,interop}.rs (Cells), and what
-- spectrum-view/src/state does with them: linking.rs (Linking) and eval.rs (Evaluation). The pool of
-- cells and the check of a signature are parameters. Linked, Checked and Pipeline compose both.
--
-- Panics of the source (division by zero, an index out of range, a failed assertion) are the case
-- `panicked` of `Outcome` in Prelude.Results. Arithmetic of fixed width wraps, as in a release build.
-- Fuel: the loop of `bin_partition` takes the number of nodes, which suffices for each power of two
-- from 2 on, and `normalize` 32 rounds, which suffice up to 2 ^ 31; both are among the results. The
-- activation of levels takes the number of levels that are left, after which the source stops too.
-- `build_links` takes a round more than it has peers, the loop of `kes_gen` one for each value of a
-- u32 that it counts down, the tree of keys its height and one more, and `count_ones` 64 digits.
--
-- Not modelled: logging, timers as such, and serialisation but for the undo entries; in spectrum-
-- network the swarm of libp2p, the upgrades of substreams, the writing to substreams with its
-- throttling, and the handlers of single protocols; in spectrum-view the history and the validation
-- of blocks; the connectors but for the scheduler of retries, whose work is in calls of chain
-- libraries; the crates of aggregated signatures, of the lottery and of verifiable random
-- functions, whose substance is arithmetic of elliptic curves; and the Move language, which is the
-- library of another project.
pub mod Algebra
pub mod Connection
pub mod Diffusion
pub mod Handel
pub mod Kes
pub mod Ledger
pub mod Mcast
pub mod Network
pub mod PeerManager
pub mod Prelude
pub mod TxRetry
pub mod VersionedStore
