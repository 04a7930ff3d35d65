-- ===== src/PubSub.antt =====
-- ndn-svs/svspubsub.hpp and ndn-svs/svspubsub.cpp: publications of named data over a group's vector.
pub mod Repair
pub mod Segments
pub mod Assembly
pub mod Assembled
pub mod Fit
pub mod Recovery
pub mod Search
pub mod State
pub mod Prepare
pub mod Publish
pub mod Commit
pub mod Nested
pub mod Stalled
pub mod Stuck
pub mod Reserve
pub mod Ends
pub mod Delivered
pub mod Extra
pub mod Queues
pub mod Chosen
pub mod Packing
pub mod Client
pub mod Fetch
pub mod FetchAll
pub mod Budget
pub mod Retries
pub mod FetchRun
pub mod Counts
pub mod Busy
pub mod InFlight
pub mod Ranges
pub mod MappingFetch
pub mod Updates
pub mod Arrival
pub mod Receive
pub mod Acceptable
pub mod Atomic
pub mod Shutdown
