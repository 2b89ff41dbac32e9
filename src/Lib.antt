-- ===== src/Lib.antt =====
-- A verification library for the actor runtime of this repository: the bounded mailbox, the dead
-- letters, the retries with their circuit breaker, supervision, the delivery of frames between
-- nodes, the planning, the memory and the checkpoints of agents, and the experimental mesh.
--
-- How the parts interact. A message sent to a local actor enters the actor's mailbox. If its
-- handler fails, the retry interceptor may send it again, and a message that cannot be delivered
-- becomes a dead letter. When an actor fails, the runtime decides by its policy, and that of its
-- group, what to restart. A message to another node becomes a frame of the transport: it is
-- numbered, queued, sent again until it is acked or given up, and validated and claimed where it
-- arrives, since it may be malformed or come twice. What is queued for a peer is rejected when the
-- peer is closed. The mesh tells which nodes are alive and which node hosts an actor. A question to
-- an actor is a request that waits for its correlation id, and the provider of processes writes
-- down each effect, so that it is done once. An agent plans its tasks by decomposition, and resumes
-- its session from a checkpoint.
--
-- The files, and the code they model:
--   Common            lists, dictionaries and Boolean tests that all parts share
--   Messaging/Mailbox packages/actor-core-runtime/src/messaging/mailbox.ts: class BoundedMailbox.
--                     `Mailbox` is its state, `enqueue`, `dequeue`, `clear` and `stop` its methods.
--                     A promise of a parked sender is a number, handed out in order; settled
--                     promises are listed in the order in which they are settled
--   Messaging/DeadLetterQueue  packages/actor-core-runtime/src/messaging/dead-letter-queue.ts. A
--                     retry is two steps, before and after the call that it waits for
--   Messaging/Correlation  packages/actor-core-runtime/src/pure-xstate-utilities.ts: class
--                     PureXStateCorrelationManager, with its timeouts. A promise and a timeout are
--                     numbers, handed out in order, and each method is one `Call`
--   Interception/Retry  packages/actor-core-runtime/src/interceptors/retry-interceptor.ts: the
--                     retries of failed messages and the circuit breaker, with the timeouts of
--                     pure-xstate-utilities.ts
--   Supervision       packages/actor-core-runtime/src/actor-system-impl.ts: the decisions on a
--                     failed actor (resolveSupervisionDecision) and on its group
--                     (resolveTreeSupervisionDecision), and which of the two
--                     applySupervisionStrategy executes. `fail_once` is one failure of an actor
--                     with no group, its decision carried out. Clock readings are arguments.
--                     Supervision/Actors has what stopActor and spawn do to the maps that
--                     supervision reads (`Slot` is what they hold for a path); they may throw
--                     before or after they write them, which is a `Fate`. Supervision/Driver is
--                     restartSupervisorGroup, stopSupervisorGroup and restartActorWithLimits, and
--                     Supervision/Failure is applySupervisionStrategy with its drivers
--   Transport/Identity, Transport/Values, Transport/Contract  packages/actor-core-runtime/src/
--                     runtime-transport-contract.ts: the identities of nodes, what nodes send each
--                     other, and the validators of unknown values. `Value` has the shapes that a
--                     JavaScript value may have; a validated value is read back by
--                     Contract/Reading, as the source's type assertions suppose
--   Transport/Idempotency  packages/actor-core-runtime/src/runtime-transport-idempotency.ts: the
--                     front cache, and claims with and without a provider. A claim at a provider is
--                     one step: no other claim comes between its reading and its writing
--   Transport/Reliability  packages/actor-core-runtime/src/transport/transport-reliability.ts, and
--                     the ack timer of transport-core.ts beside it; each firing of the timer is
--                     given with its two readings of the clock
--   Transport/Core    packages/actor-core-runtime/src/transport/transport-core.ts: class
--                     TransportCore. `Core` is its state and `Peer` that of a peer; each method and
--                     each callback of a link or timer is a function of Core, Core/Outbound or
--                     Core/Inbound and an event of Core/Runs, so that a run is any interleaving. A
--                     promise, a link and a peer object are numbers. A send that is awaited ends in
--                     an event of its own, also after its peer was closed (`flights`), and the
--                     `catch` of a frame sent again is an event (`microtask_due`). That a link
--                     stalls or opens is an event, and a call of flushPeer is another
--   Provider/Journal  packages/actor-core-runtime/src/node-provider-lifecycle-effect-journal.ts:
--                     the journal in memory, as a dictionary from idempotency keys. The copy of a
--                     record through JSON is the parameter `expose`
--   Session/Checkpoint  packages/actor-core-runtime/src/agent-session-checkpoint-store.ts: the
--                     store in memory, what a read tells of a checkpoint, and whether a session is
--                     resumed from it. Date.parse is the parameter `parse_date`
--   Memory/ShortTerm  packages/actor-core-runtime/src/memory/hybrid-memory.ts: class LRUCache, and
--                     `forget` of class AgentMemory on it
--   Planning/Htn      packages/actor-core-runtime/src/planning/hierarchical-task-network.ts: class
--                     HTNPlanner. `plan_internal` is planInternal; a task object is a reference
--                     that `look` reads, and conditions, effects and methods are functions that may
--                     throw
--   Mesh/Membership   packages/actor-labs-mesh/src/membership.ts: the merging of records, by the
--                     order of Mesh/Incarnation
--   Mesh/Directory    packages/actor-labs-mesh/src/directory.ts: the merging of entries, their
--                     export, and the location of an actor
--   Mesh/Routing      packages/actor-labs-mesh/src/routing.ts: the next hop to a node
-- Files named Examples hold concrete runs.
--
-- Numbers that count, times in milliseconds, versions and limits are natural numbers: the source
-- has floating-point numbers, which agree below 2 ^ 53. Where a difference of times may be negative
-- it is written as a sum on the other side. Incarnations of the mesh may be any finite numbers or
-- texts; these numbers, their texts and the comparison by locale are the parameter `Numbers`, with
-- the laws of a total preorder.
--
-- Fuel: `digits_of` divides by ten, with the number itself as fuel, which exceeds its digits. The
-- search for a route has fuel for every path that can enter its queue. The planner's depth is
-- bounded by the source itself, by maxDepth.
--
-- Not modelled: I/O, the bytes of JSON (their number is the parameter `measure` of `send`), the
-- dialling of a channel and the exchange of its handshake, the clock behind a timer, promises
-- beyond their settlement, logging and statistics; the parts of the runtime that the files above do
-- not name.
pub mod Common
pub mod Interception
pub mod Memory
pub mod Messaging
pub mod Planning
pub mod Provider
pub mod Session
pub mod Supervision
pub mod Transport
pub mod Mesh
