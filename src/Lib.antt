-- ===== src/Lib.antt =====
-- ndn-svs: State Vector Sync for Named Data Networking.
--
-- A group of nodes keeps one state vector: for each node, and each epoch (bootstrap time) of it,
-- the number of its latest publication. A node sends its vector in a Sync Interest when it
-- publishes, from time to time, and when it hears a vector that is behind its own, unless another
-- node did so first (suppression). Whoever hears a vector merges it, and reports to the application
-- what it misses. The mapping provider tells which application name a number stands for.
--
-- The files, and the code that they model:
-- Base: what the others share: Boolean tests and orders (Base/Tests), lists (Base/Lists), results
--   with exceptions (Base/Results), std::map as a sorted association list with its laws
--   (Base/OrdMap), and functions that change a state and may throw (Base/Action). A change made
--   before a throw stays.
-- Tlv, Tlv/Kind: ndn-svs/tlv.hpp, and the blocks of ndn-cxx as a parameter with its laws.
-- VersionVector: ndn-svs/version-vector.hpp and .cpp. A vector is a record of the three maps; set
--   is `set`, get(nid, bootstrapTime) is `get`, get(nid) is `get_latest`. VersionVector/Invariant,
--   /Equality and /Updates say what holds of it. VersionVector/Codec is the decoding constructor,
--   encode, decodeV2 and encodeV2; VersionVector/Codec/Decoded and /RoundTrip are about them.
-- Core: ndn-svs/core.hpp and core.cpp. Core/Merge is computeMergeStateVector, with the proofs in
--   Core/Merge/Total, /Values, /Missing, /Newness, /Lattice and /Computed. Core/State is the state
--   of SVSyncCore, with mergeStateVector, recordVector and enterSuppressionState. Core/Send is
--   sendSyncInterest, its worker and retxSyncInterest; Core/Receive is onSyncInterest, the serial
--   handler, and the worker with its result; Core/Publish is updateSeqNo and the setters.
--   Core/Quiet, /Parallel and /Progress have the lemmas on what each handler leaves alone; Core/Run
--   is runs of events, Core/Run/Jobs the jobs of the workers in them, Core/Reception what a packet
--   does to the vector, Core/Suppression and Core/Announcement when a node records, answers and
--   announces.
-- SyncProtocol: ndn-svs/sync-protocol.hpp and sync-protocol.cpp: resolve (SyncProtocol/Options),
--   the checks of the extensions (SyncProtocol/Extensions), SyncProtocolCodec (SyncProtocol/Codec),
--   and what is accepted (SyncProtocol/Accepted) and read back (SyncProtocol/RoundTrip).
-- Mapping: ndn-svs/mapping-provider.hpp and mapping-provider.cpp: the provider's map, MappingList
--   (Mapping/Codec, Mapping/RoundTrip), queries and replies (Mapping/Query, Mapping/Range), and the
--   names of queries (Mapping/QueryName).
-- Fetcher: ndn-svs/fetcher.hpp and fetcher.cpp: the queue of Interests behind a window;
--   Fetcher/Window is about runs of its events.
-- Packets: what the code asks of ndn-cxx's Data and of the marked components of names.
-- SyncBase: ndn-svs/svsync-base.hpp and svsync-base.cpp, with the names of svsync.hpp and
--   svsync-shared.hpp and the store of store.hpp as a record of operations that may throw.
--   SyncBase/Rollback and /Batch are about insertPreparedDataBatch, on a store that keeps the
--   interface's contract. MemoryDataStore erases by the full names of ndn-cxx and does not keep the
--   part of it on erasure.
-- PubSub: ndn-svs/svspubsub.hpp and svspubsub.cpp. PubSub/Repair is the code of repair requests.
--   PubSub/Segments is prepareSegmentedPackets, PubSub/Assembly decodeInnerSegments; PubSub/Search,
--   /Fit, /Assembled and /Recovery are about them. PubSub/State is the state that publications use,
--   PubSub/Prepare the building of packets, PubSub/Publish the publish functions and the staging,
--   PubSub/Commit the commit loop and its retries. PubSub/Nested, /Stalled, /Stuck, /Reserve and
--   /Ends are about numbers and commits. PubSub/Delivered is the record of the publications that
--   Sync Interests brought. PubSub/Extra is onGetExtraData and onGetExtraBlocks; PubSub/Queues,
--   /Chosen and /Packing are about their queues. PubSub/Client is the state of subscriptions and fetches, with
--   subscribe and unsubscribe; PubSub/Fetch is addPublicationFetch, markPublicationFetchFailed and
--   observePublicationFetchSuccess, PubSub/FetchAll is fetchAll; PubSub/Budget and /Retries are
--   about the attempts of a fetch, PubSub/FetchRun is runs of fetches, PubSub/Counts, /Busy and
--   /InFlight are about the window. PubSub/MappingFetch is processMapping and scheduleMappingFetch,
--   PubSub/Ranges the loops that cut ranges of numbers, PubSub/Updates is onFetchedNameMappings and
--   updateCallbackInternal. PubSub/Arrival and PubSub/Receive are onRecvExtraBlocks and
--   onRecvExtraData, with enqueueRepairPublication; PubSub/Acceptable and /Atomic are
--   about them. PubSub/Shutdown is the destructor.
-- Examples: small inputs, on which the theorems are applied.
--
-- How the code is read. NodeID is a type with an order. Clocks and random numbers are arguments,
-- read once in a call. Calls into the application and onto the face are effects, in their order. A
-- callback that throws is not modelled. The Face thread runs one handler at a time, as the code
-- does; a worker's result is one event, and workers may end in any order, so the k-th job of the
-- queue is taken for any k. The worker is a function of its job: it reads no state that the Face
-- thread writes. Counters of milliseconds and log lines are left out. Generations count without a
-- bound: 2 ^ 64 changes of the state are out of reach. Numbers that are read from packets are below
-- 2 ^ 64, and additions of the code wrap around where they are written with a remainder.
--
-- Fuel: the loop of onMappingQuery runs on fuel, since it need not end. One unit for each number of
-- the range and one more is enough where it does. The search for the size of a segment has one unit
-- for each size, the loop over the value one for each byte, and the commit loop one more than the
-- node has prepared publications: each of their rounds uses up at least as much. A commit loop that
-- ran out would have no state. The loops over the
-- numbers of a range in PubSub/Updates, /Ranges and /Arrival need one unit for each number and one more.
-- The 16 passes of prepareSegmentedPackets are the code's own bound.
--
-- Not modelled: ndn-cxx (packets, signatures, the scheduler), which is a parameter, and std::sort,
-- which is one too; the floating-point suppression curve, a parameter as well; in svspubsub.cpp
-- onSyncData and the constructor; the requests of PubSub/Client to the fetchers are effects, whose
-- answers are the events that its other functions handle; the memory store and the security
-- options, which hold objects of ndn-cxx; examples/, tests/ and the build.
pub mod Base
pub mod Tlv
pub mod Packets
pub mod VersionVector
pub mod Core
pub mod SyncProtocol
pub mod Mapping
pub mod Fetcher
pub mod SyncBase
pub mod PubSub
pub mod Examples
