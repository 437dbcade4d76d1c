-- ===== src/Lib.antt =====
-- Verification library of the Liskov runtime helper: the supervisor of a customer process, the
-- environment that the customer is given, and parts of the traversal collector.
--
-- The helper starts one customer command, restarts it under a policy that the server decided, and
-- ends with the customer's own status. Before the first start it repairs the environment that the
-- processor hands on, and starts its fact workers. The traversal collector is dormant: it checks a
-- grant, reserves time for it, and, where a caller asks, finds the local gateway and talks to it.
--
-- Files and what they model:
--   Supervisor/Policy    src/protocol.rs `supervision_policy`; src/supervisor.rs `effective_policy`,
--                        `restart_delay`, `deterministic_backoff`, `initial_health_jitter`
--   Supervisor/Effects   src/supervisor.rs: the reports and the other effects, in order
--   Supervisor/Watch     src/supervisor.rs `supervise_with_reporter_and_environment`, the inner loop:
--                        `Watch` holds its variables, one `Poll` what a round observes, and
--                        `poll_round` is one round: access events, `forward_signal`,
--                        `force_cleanup`, `try_wait`, `beat_health`
--   Supervisor/Run       the same function's outer loop: `run_attempt` is one pass,
--                        `supervise_from` the loop, `Counters` its variables
--   Supervisor/Start     the same function from its start, with the report of the repairs
--   Supervisor/Reaping   src/supervisor.rs `terminate_and_reap_group`, `capture_signal`,
--                        `take_signal`
--   Environment/Names    src/env_names.rs
--   Environment/Maps, Normalize  src/customer_environment.rs
--   Environment/Customer src/supervisor.rs `customer_environment` and what it calls
--   Gateway/Routes       src/network_traversal/gateway.rs `select_gateway`, `discover_loaded`,
--                        `discover_with_sources`
--   Gateway/Numerals, ProcTable  the same file's `parse_proc_net_route`
--   Gateway/Netlink      the same file's `parse_netlink_route_dump`, `netlink_dump_finished`
--   Gateway/Control      the same file's `exchange_with_gateway`, `exchange_upnp_soap`
--   Mapping/Packets      src/network_traversal/mapping.rs: the PCP and NAT-PMP packets
--   Mapping/Effects, Create, Delete  the same file's `map_pcp`, `map_nat_pmp`, `exchange_create`,
--                        `adopt_or_refuse`, `send_delete`, `delete_owned_mapping`
--   Traversal/Outcomes   the enumerations of src/network_traversal/proof.rs
--   Traversal/Transcript the same file's `TraversalTranscriptV1`: `validate` (Checks), `validate_scope`
--                        and `validate_pair_transcripts` (Scope)
--   Behaviour            src/network_traversal/behaviour.rs: `Experiment` (Exchange), `filtering`,
--                        `mapping`, `collect_udp_behaviour` (Collect)
--   Traversal/Receipts   src/network_traversal/auth.rs `receipt_domain`, `traversal_receipt_message`;
--                        src/network_traversal/result.rs `TraversalProofV1`
--   Traversal/Results    src/network_traversal/result.rs `NetworkTraversalV1`: `validate`,
--                        `validate_scope`
--   Traversal/Texts, Descriptor, Validate  src/network_traversal/mod.rs and descriptor.rs
--   Traversal/Paired     descriptor.rs `validate_traversal_pair`
--   Traversal/Reserve    src/network_traversal/reserve.rs
--   Traversal/Lifecycle  src/network_traversal/lifecycle.rs: `MappingSession` and `Accounting`
--   Traversal/Control    the same file's `BoundedControl::exchange` and `path`
--   Traversal/Run        the same file's `run_mapping_lifecycle`: `run_method` is a pass through its loop,
--                        with a row of the report (Reports), a creation and a deletion (Creation), and
--                        what follows each (Passes); `run_methods` is the loop (Whole)
--   Prelude              shared: the native numbers and their tests, machine words, byte strings,
--                        `Option` and `Result` chains, JSON values
-- The folders below a component's file hold its proofs, and its Tests file concrete runs.
--
-- Conventions. Times are nanoseconds in the supervisor and milliseconds in the collector, as numbers
-- that saturate or are checked where the source does. Exit codes and signals are numbers. Names and
-- values of the environment are byte strings. An IPv4 address is its 32-bit number. A report keeps
-- the source's stage, status, code and attributes.
--
-- The loops of the supervisor run over what they observe: a list of rounds, a list of attempts. A
-- list that ends before the loop does stands for a process, or a supervisor, that still runs. The
-- loops over netlink bytes run on fuel that is one more than the number of bytes that are left; each
-- step consumes at least 16 bytes of a dump, and at least 4 of a message's attributes. A receive of a
-- behaviour experiment runs on the source's own limit of 16 packets.
--
-- Parameters: SHA-256 in the supervisor; the length of a serialized descriptor in the collector; the
-- digest of a descriptor's canonical form, the lengths of a serialized transcript and result,
-- the canonical form of a receipt and the digest of a proof's, the hexadecimal encoding and what the UPnP calls report in a session's run; the URL parser and the transport in
-- the exchanges with a gateway; the guest's file system in the repair. Observations of the operating
-- system are inputs of the models.
--
-- Not modelled: the process authority, starting processes, output capture, the thermal and memory
-- samples, the detached workers' bodies, reading /proc/net/route and the netlink socket, and the
-- other modules of the helper (UPnP of the traversal, payload, processor facts,
-- discovery, access, logging, secrets, bootstrap contact and probes).
pub mod Behaviour
pub mod Environment
pub mod Gateway
pub mod Mapping
pub mod Prelude
pub mod Supervisor
pub mod Traversal
