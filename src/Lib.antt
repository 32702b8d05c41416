-- ===== src/Lib.antt =====
-- The runtime of the DuckDB foreign-data extension, with proofs.
--
-- The extension scans remote APIs. A scan asks the admission controller for permits before it
-- resolves credentials, starts, sends a request, waits for a retry or buffers a page; where the remote
-- limits its rate it waits in the rate limit coordinator for the permit of its quota key; it connects
-- only to addresses that the network policy admits; it charges what each request uses to its own
-- resource account; it decodes chunked bodies; and it follows the links or the cursor of a paginated
-- operation. These keep their own state and meet in the executor, which is not modelled. Connector
-- packages carry a version that is parsed and compared, and the registry publishes the generations of
-- packages that scans use.
--
-- Admission, src/runtime/execution/admission_controller.cpp:
--   Admission/Counts: the tables KeyCount with CountFor, AddCount and SubtractCount, generic in the
--     key; CountForBulkhead and its siblings are these at the bulkhead key.
--   Admission/Identity: principal tokens, AdmissionIdentity, BulkheadKey, equality and hashes, and
--     the opaque principal of src/runtime/execution/http_scan_executor.cpp.
--   Admission/Usage: Counters, CheckFits, AddUsage, SubtractUsage. Usage/Load sees counters as a load:
--     for each selection of identities, the amount that those selected hold. Usage/Fits is CheckFits
--     against the load, Usage/Rollback an AddUsage that throws.
--   Admission/Profile: AdmissionProfile::Hard, ValidateProfile, the limits of resources and queues.
--   Admission/Controller: SharedState, tickets and GrantEligibleLocked; a ticket that a pass granted
--     moves from tickets to granted until its caller claims it.
--   Admission/Acquire: AcquireQueued, AcquireImmediate, ResizeBufferedBytes, Permit::Release and
--     Close, one function for each critical section of the mutex. The waiting loop of AcquireQueued is
--     take_turn, one call for each time that the caller holds the mutex. Acquire/Invariant has the
--     steps of any callers in any order, Acquire/Behaviour what a caller meets, Acquire/Leaving what
--     one takes away that leaves, Acquire/HardLimits the hard profile, Acquire/Closing the end.
--   Admission/Public: the named acquisitions, IsClosed and Usage.
-- Scan resources, src/runtime/policy/scan_resource_accounting.cpp:
--   ScanResource/Types, Profile, Account and Charge: the state and every method that changes it. A
--     method gives the account that it leaves also where it throws, so what was charged before the
--     failure stays charged, as in the source. ScanResource/Sound, NoReset, Terminal, Requests and
--     Retry have the proofs.
-- Rate limits, src/runtime/execution/rate_limit_coordinator.cpp:
--   RateLimit/Key: QuotaBucketKey, its principals, equality and hash. RateLimit/Table: the map of
--     buckets as an association list.
--   RateLimit/Coordinator: SharedState, EraseTicketLocked, EnterTerminalLocked,
--     Permit::ExtendEligibleTime and Permit::Complete; RateLimit/Sections: WaitForTicket, Acquire,
--     Requeue and Close. The loop of WaitForTicket is wait_turn, one call for each time that the
--     caller holds the mutex. A permit is the key of its handle.
--   RateLimit/Tickets, Invariant, Waiting, Ending, Queueing and Requeueing: each section keeps the
--     invariant. RateLimit/Steps: any sections in any order. RateLimit/Permits, Fairness and Closing:
--     what a permit promises, who gets it, and the end.
-- Chunked transfer coding, src/runtime/transport/http_chunk_decoder.cpp: ChunkDecoder has the grammar
--   and ChunkDecoder/Loops the loops. An offset into the text is the text from it on.
--   ChunkDecoder/Fuel shows that the loops end, Bounds the limits of the body, and RoundTrip reads
--   back what Print writes.
-- Cursor pagination, src/runtime/pagination/graphql_cursor_pagination.cpp: CursorPagination.
-- Link pagination, src/runtime/pagination/link_pagination.cpp: LinkPagination has the check
--   of a target, LinkPagination/Calls the state and its calls. LinkPagination/Progress is about these,
--   Target, Fields and Decimal about the target that names the next page.
-- Network policy, src/runtime/policy/network_policy.cpp: NetworkPolicy, with the filter of IPv4
--   addresses against a table of blocks in Blocks and that of IPv6 addresses in Groups.
-- Package generations, src/runtime/generation: Generations has the state and
--   Generations/Staging the calls. Snapshots and owners are compared by their addresses, as the shared
--   pointers of the source are. A call of StageLoad or StageReload stands where it holds the publication
--   mutex, Close at its two stores. Generations/Owners sees the owners as a map, Leases what a staging
--   gives, Steps all calls in any order, Publication and Draining what they promise.
-- Package versions, src/connector/package_semver.cpp: PackageSemver.
--
-- Numbers are natural numbers. A uint64_t that the source adds to without a test keeps its wrap, `% 2
-- ^ 64`; where the source tests first, the test is modelled. Steady-clock readings are natural numbers
-- of milliseconds in the admission controller, and of ticks in the scan resources, whose clock (ticks
-- of a millisecond, greatest duration) is a parameter. std::hash is a parameter. The loops of the
-- chunk decoder run on fuel, one more than the bytes that are left, which is shown to be enough, and so
-- is the fuel of a number's digits, one more than the number; all other loops are recursion on a list,
-- and the waiting loops are sequences of steps.
--
-- Not modelled: allocation failures but those inside AddUsage; the notification of
-- condition variables, which is not state; the texts of exceptions; RetainedMemoryBytes. A
-- cancellation that AcquireQueued sees after it gave up the lock is a step that acquires and one that
-- releases. The checks of cancellation and wall time inside the chunk decoder. The retry controller, the
-- grammar of Link headers and URI references, the classification of a reload, the planners, the
-- package compiler, decoding, transport and the DuckDB adapters are not modelled.
pub mod Base
pub mod Admission
pub mod ScanResource
pub mod CursorPagination
pub mod PackageSemver
pub mod RateLimit
pub mod ChunkDecoder
pub mod Generations
pub mod LinkPagination
pub mod NetworkPolicy
