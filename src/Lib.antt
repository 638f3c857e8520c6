-- ===== src/Lib.antt =====
-- The verification library of this repository's control plane: the GitHub rate limiter, the registry
-- scheduler, the self-healing control loop, the durable queue, the responder with its policy and its
-- suppression of repeated conditions, the learning from its receipts, the session quarantine, the
-- GBRG inclusion gate with its ledger, the propagation engine, and the mesh: its topology, the
-- rotation of its masters and the placement of shards.
--
-- How the parts interact: webhook events wait in a queue; the scheduler drains it under the rate
-- limiter and hands each event to the propagation handler, and runs the metered jobs. The propagation
-- engine loads the dependency graph and the rules, computes the cascade of a change, and notifies or
-- triggers other repositories. Detectors put beacons in a durable queue; the responder drains it,
-- decides each subject under the policy, and drives executors under the control loop. The gate decides
-- whether a cell enters a reviewer's context and appends its decision to the ledger, to which the MCP
-- gate appends chained events. The quarantine attaches lifecycle events to sessions.
--
-- Which file models which part (paths from the repository's root):
--   Base, Base/*               the shared names; Base/Dict is Python's dict with text keys
--   RateLimit                  automation/rate_limiter.py: acquire is split at the release of the lock
--                              (locked, settle); RateLimit/Steps has the threads as a step relation
--   Scheduler                  automation/scheduler.py: _process_queue (Scheduler/Queue),
--                              _run_propagation, _exponential_retry, the metered jobs, and the jobs that spend
--                              no calls (Scheduler/Unmetered)
--   ControlLoop                automation/control_loop.py: ControlLoop.__init__, run, heal
--   DurableQueue               automation/durable_queue.py: put, get_nowait, empty, qsize, peek_all;
--                              DurableQueue/Fifo has the list that it implements,
--                              DurableQueue/Consumers several processes as a step relation
--   Policy, Suppression        automation/policy.py: law_for, action_for, validate_policy,
--                              policy_from_mapping; automation/suppression.py: should_process
--   Responder                  automation/responder.py: decide_composed and what it calls, _execute
--                              (Responder/Acts), run_once (Responder/Cycle)
--   Learning                   automation/learning.py: _demote, _outcomes_by_kind, analyze
--   MeshTopology               automation/mesh_topology.py: build_tree, tree_leader, tree_healthy,
--                              turn_length
--   TriadRotation              automation/triad_rotation.py: rotate, epoch_for_time,
--                              writers_on_schedule
--   Storage                    automation/storage_placement.py: load_placement,
--                              load_runtime_placement; automation/storage_resilience.py:
--                              disperse_shards
--   Quarantine                 automation/session_quarantine.py: register_session, event_received,
--                              reconcile and their helpers
--   Gbrg/Gate                  gbrg/governance/gate.py: decide_inclusion, authorize_inclusion,
--                              gate_inclusion
--   Gbrg/Ledger                gbrg/governance/ledger.py: verify_ledger, verify_head, read_verified; and
--                              _prev_hash and emit_event of gbrg/mcp/mcp_gate.py
--   Propagation                engines/propagation_engine.py: add_edge (Propagation/Graph), load
--                              (Propagation/Load, Propagation/Rules), compute_cascade
--                              (Propagation/Cascade), _dispatch and propagate
--                              (Propagation/Dispatch)
--   Tests/*                    runs of the definitions at concrete inputs
--
-- Conventions: a state is a record and an operation a function from states to states. A time is a
-- number of microseconds; a clock is a function of the number of its readings. A float that is only
-- compared with thresholds is a count of a small unit (1e-12 for errors, 1e-6 for blast radii), or a
-- ratio of integers. An exception is a value (none, or a constructor). Log lines are left out.
--
-- Parameters, for code outside the repository or the modelled parts: SHA-256 over canonical JSON
-- (hash_event, seal), the process of agent-registry's authorize.py (Process), the GitHub or Gitea
-- backend (Scm, whose answers may depend on all earlier calls), the clocks, uuid4, the propagation
-- handler, the rebuild and scan functions, what the jobs without calls run, the observation and the
-- action of the control loop, JSON (dumps, loads), the semantic kernel's meet, and the executors with
-- remediate.
--
-- Fuel: ControlLoop.run has one iteration more than max_iterations, compute_cascade one round more than
-- there are seeds and edges of the graph, build_tree the number of its nodes, and the responder's drain
-- one round more than there are pending files: all are shown to be enough. run_propagation has as its
-- depth the nested calls of itself that the interpreter's stack has room for; the next one raises
-- RecursionError, which the source catches.
--
-- Not modelled: events that arrive during a drain of the scheduler's queue, a RecursionError inside the
-- handler or the logger, what a run of the responder does with an entry that is JSON but no well-formed
-- beacon before it raises, the rounding of floats in the responder's identity risk (the model is exact,
-- so the two differ where a risk is within the rounding of the block), crashes between an append and
-- its flush, the temporary files of a put, the text of issues and reasons, the receipt's envelope, the
-- YAML files' parsing, and the other components of the repository (the executors, detectors, mesh
-- synchronisation, registries, tools, web applications).
pub mod Base
pub mod RateLimit
pub mod Scheduler
pub mod ControlLoop
pub mod Gbrg
pub mod Propagation
pub mod Quarantine
pub mod Tests
pub mod DurableQueue
pub mod MeshTopology
pub mod Learning
pub mod Policy
pub mod Suppression
pub mod Responder
pub mod TriadRotation
pub mod Storage
